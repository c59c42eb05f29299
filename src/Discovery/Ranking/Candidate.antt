-- ===== src/Discovery/Ranking/Candidate.antt =====
-- Which CPU `buildLoadedDiscoveryReport` names as the strongest candidate.
use mathlib.Core.List.{Mem, mem-cons}
use mathlib.Core.Logic.Or
use fault_affinity.Prelude.{
  ◌<◌, ◌≡◌, ◌↔◌, refl, sym, ap, subst, ◌⊎◌, inl, inr, Bool, true, false, List, [], ◌∷◌, none, some,
  All, select, Bool-cases, arith,
}
use fault_affinity.Prelude.Sorting.{
  sort_by, sort_by-subset, select-subset, All-of_sort_by, All-to_sort_by, sort_by_nil,
  sort_by-IsSorted, IsSorted,
}
use fault_affinity.Discovery.Ranking.{
  Row, ranks_first, is_affected, affected_rows, all_complete, first_row, strongest_candidate,
}
use fault_affinity.Discovery.Ranking.Order.{
  target, Outranks, ranks_first-total, ranks_first_trans, ranks_first_iff,
}

not_none : {r : Row} → none ≡ some r → ⊥
not_none e = cc

first_row_inversion :
    (complete : Bool) (rows : List Row) {best : Row}
    → first_row complete rows ≡ some best
    → (complete ≡ true) × ((rest : List Row) × (rows ≡ best ∷ rest))
first_row_inversion true [] e = cc
first_row_inversion true (row ∷ rest) e = (refl, (rest, ground arith))
first_row_inversion false [] e = cc
first_row_inversion false (row ∷ rest) e = cc

ranks_first_self : (a : Row) → ranks_first a a ≡ true
ranks_first_self a = elim (ranks_first-total a a) [ inl h ↦ h | inr h ↦ h ]

-- The head of the sorted rows comes first against every row that was sorted.
sorted_head_first :
    (rows : List Row) (best : Row) (rest : List Row)
    → sort_by ranks_first rows ≡ best ∷ rest
    → All (λ row. ranks_first best row ≡ true) rows
sorted_head_first rows best rest e =
    let sorted : IsSorted ranks_first (best ∷ rest) =
      rw e at (sort_by-IsSorted ranks_first ranks_first-total ranks_first_trans rows) in
    All-of_sort_by (λ row. ranks_first best row ≡ true) ranks_first rows
      (subst (All (λ row. ranks_first best row ≡ true)) (sym e) (ranks_first_self best, sorted.0))

Outranks-affected :
    (best : Row) (rows : List Row)
    → 0 < target best
    → All (λ row. ranks_first best row ≡ true) (select is_affected rows)
    → All (λ row. 0 < target row → Outranks best row) rows
Outranks-affected best [] pos all = tt
Outranks-affected best (row ∷ rows) pos all = elim (Bool-cases (is_affected row)) [
  | inl t ↦
      let held : All (λ r. ranks_first best r ≡ true) (row ∷ select is_affected rows) =
        rw t at all in
      (
        λ p. (ranks_first_iff best row (omega arith) (omega arith)).0 held.0,
        Outranks-affected best rows pos held.1,
      )
  | inr n ↦
      let held : All (λ r. ranks_first best r ≡ true) (select is_affected rows) = rw n at all in
      (λ p. absurd (ground arith), Outranks-affected best rows pos held)
]

every_All : (rows : List Row) → all_complete rows ≡ true → All (λ row. row.is_complete ≡ true) rows
every_All [] h = tt
every_All (row ∷ rows) h = (ground arith, every_All rows (ground arith))

affected_of_select : (rows : List Row) → All (λ row. 0 < target row) (select is_affected rows)
affected_of_select [] = tt
affected_of_select (row ∷ rows) = elim (Bool-cases (is_affected row)) [
  | inl t ↦ rw t (ground arith, affected_of_select rows)
  | inr n ↦ rw n (affected_of_select rows)
]

abbrev pub IsStrongest : List Row → Row → Type 0
IsStrongest rows best =
    All (λ row. row.is_complete ≡ true) rows
    × Mem best rows
    × (0 < target best)
    × All (λ row. 0 < target row → Outranks best row) rows

-- The strongest candidate is a row of a complete screen, it saw a target fault under load, and it
-- ranks above or level with every row that saw one.
pub strongest_candidate-IsStrongest :
    (rows : List Row) {best : Row} → strongest_candidate rows ≡ some best → IsStrongest rows best
unfolding strongest_candidate
strongest_candidate-IsStrongest rows {best} h =
    let (complete, (rest, e)) = first_row_inversion (all_complete rows) (affected_rows rows) h in
    let member = subst (Mem best) (sym e) (mem-cons.1 (Or.inl refl)) in
    let chosen = sort_by-subset ranks_first (select is_affected rows) best member in
    let hit : All (λ row. 0 < target row) (best ∷ rest) = rw e at (
      All-to_sort_by (λ row. 0 < target row) ranks_first (select is_affected rows)
        (affected_of_select rows)) in
    (
      every_All rows complete,
      select-subset is_affected rows best chosen,
      hit.0,
      Outranks-affected best rows hit.0 (sorted_head_first (select is_affected rows) best rest e),
    )

none_affected : (rows : List Row) → All (λ row. target row ≡ 0) rows → select is_affected rows ≡ []
none_affected [] all = refl
none_affected (row ∷ rows) all = ground (arith, all.0, none_affected rows all.1)

unaffected_of_nil :
    (rows : List Row) → select is_affected rows ≡ [] → All (λ row. target row ≡ 0) rows
unaffected_of_nil [] e = tt
unaffected_of_nil (row ∷ rows) e = elim (Bool-cases (is_affected row)) [
  | inl t ↦ let held : row ∷ select is_affected rows ≡ [] = rw t at e in cc
  | inr n ↦
      let held : select is_affected rows ≡ [] = rw n at e in
      (ground arith, unaffected_of_nil rows held)
]

first_row-none :
    (complete : Bool) (rows : List Row)
    → (first_row complete rows ≡ none) ↔ ((complete ≡ false) ⊎ (rows ≡ []))
first_row-none true [] = (λ _. inr refl, λ _. refl)
first_row-none true (row ∷ rest) = (λ h. cc, λ h. ground arith)
first_row-none false [] = (λ _. inl refl, λ _. refl)
first_row-none false (row ∷ rest) = (λ _. inl refl, λ _. refl)

-- Some row is not of a complete session.
abbrev pub SomeIncomplete : List Row → Type 0
SomeIncomplete [] = ⊥
SomeIncomplete (row ∷ rows) = (row.is_complete ≡ false) ⊎ SomeIncomplete rows

incomplete_iff : (rows : List Row) → (all_complete rows ≡ false) ↔ SomeIncomplete rows
incomplete_iff [] = (λ h. cc h, λ h. absurd h)
incomplete_iff (row ∷ rows) = elim (Bool-cases row.is_complete) [
  | inl t ↦ (
    λ h. inr ((incomplete_iff rows).0 (rw t at h)),
    λ h. elim h [ inl f ↦ absurd (cc (t, f)) | inr later ↦ rw t ((incomplete_iff rows).1 later) ],
  )
  | inr f ↦ (λ h. inl f, λ h. rw f refl)
]

-- No candidate is named exactly when a row's session is not complete or no row saw a target fault.
pub strongest_candidate-none :
    (rows : List Row)
    → (strongest_candidate rows ≡ none) ↔ (SomeIncomplete rows ⊎ All (λ row. target row ≡ 0) rows)
unfolding strongest_candidate
strongest_candidate-none rows =
    let split = first_row-none (all_complete rows) (affected_rows rows) in
    (
      λ h. elim (split.0 h) [
        | inl part ↦ inl ((incomplete_iff rows).0 part)
        | inr e ↦ inr (unaffected_of_nil rows (sort_by_nil ranks_first (select is_affected rows) e))
      ],
      λ h. elim h [
        | inl part ↦ split.1 (inl ((incomplete_iff rows).1 part))
        | inr all ↦ split.1 (inr (ap (sort_by ranks_first) (none_affected rows all)))
      ],
    )
