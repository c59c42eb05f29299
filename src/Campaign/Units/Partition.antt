-- ===== src/Campaign/Units/Partition.antt =====
-- Each half of a context has a controller outside it.
use fault_affinity.Prelude.{
  ℕ, ◌+◌, ◌≤◌, ◌≡◌, refl, sym, ◌∙◌, subst, inl, inr, true, false, List, [], ◌∷◌, All, length, every,
  includes, leb, ◌==◌, ==_iff, some, not, ◌||◌, ok, require, bind_returns, then_returns,
  require_holds, ok_inj, some_inj, Bool-cases, arith,
}
use fault_affinity.Prelude.Increasing.{
  Increasing, sorted_unique, sorted_unique-Increasing, includes-sorted_unique,
}
use fault_affinity.Text.{Text, codes}
use fault_affinity.Campaign.Sysfs.{Sysfs, no_controller, unpartitioned, first_outside}
use fault_affinity.Campaign.Units.{
  core_units, halves, Context, PinnedContext, partition_of, partition_context,
}
use fault_affinity.Campaign.Units.Groups.{
  tally, includes-tally, tally-includes, Increasing-tally, core_units-total, halves-tally,
}

pub first_outside_sound :
    (universe active : List ℕ) {cpu : ℕ}
    → first_outside universe active ≡ some cpu
    → (includes universe cpu ≡ true) × (includes active cpu ≡ false)
unfolding first_outside
first_outside_sound [] active h = cc
first_outside_sound (x ∷ universe) active {cpu} h = elim (Bool-cases (includes active x)) [
  | inl e ↦
      let later : first_outside universe active ≡ some cpu = rw e at h in
      let (found, outside) = first_outside_sound universe active later in
      (ground (arith, found), outside)
  | inr n ↦
      let same : x ≡ cpu = some_inj (rw n at h) in
      (rw ((==_iff x cpu).1 same) refl, subst (λ c. includes active c ≡ false) same n)
]

pub first_outside_finds :
    (universe active : List ℕ) (cpu : ℕ)
    → includes universe cpu ≡ true
    → includes active cpu ≡ false
    → (found : ℕ) × (first_outside universe active ≡ some found)
unfolding first_outside
first_outside_finds [] active cpu h n = cc
first_outside_finds (x ∷ universe) active cpu h n = elim (Bool-cases (includes active x)) [
  | inr e ↦ (x, rw e refl)
  | inl e ↦
      let apart : (x == cpu) ≡ false = elim (Bool-cases (x == cpu)) [
        | inr k ↦ k
        | inl k ↦
            let same : x ≡ cpu = (==_iff x cpu).0 k in
            cc (subst (λ c. includes active c ≡ true) same e, n)
      ] in
      let (found, later) = first_outside_finds universe active cpu (ground arith) n in
      (found, rw e later)
]

-- A context of usable CPUs, in increasing order, with at least one.
pub record IsContext (usable : List ℕ) (cpus : List ℕ) : Type 0 where
  pub within : every (λ cpu. includes usable cpu) cpus ≡ true
  pub increasing : Increasing cpus
  pub nonempty : 1 ≤ length cpus

-- Its controller is a usable CPU outside it.
pub record IsPlaced (usable : List ℕ) (context : PinnedContext) : Type 0 where
  pub own : IsContext usable context.cpus
  pub controller : ℕ
  pub named : context.controller_cpu ≡ some controller
  pub usable_controller : includes usable controller ≡ true
  pub outside : includes context.cpus controller ≡ false

pub every_of :
    (universe xs : List ℕ)
    → ((a : ℕ) → includes xs a ≡ true → includes universe a ≡ true)
    → every (λ cpu. includes universe cpu) xs ≡ true
every_of universe [] h = refl
every_of universe (x ∷ xs) h =
    let first : includes universe x ≡ true = h x (rw ((==_iff x x).1 refl) refl) in
    let rest = every_of universe xs (λ a k. h a (ground (arith, k))) in ground arith

pub length_of : (xs : List ℕ) (a : ℕ) → includes xs a ≡ true → 1 ≤ length xs
length_of [] a h = cc
length_of (x ∷ xs) a h = omega arith

-- A half that leaves a CPU of the universe is placed.
half-IsPlaced :
    (universe : List ℕ) (context : Context) (suffix : Text) (half : List ℕ) (own other : ℕ)
    → ((a : ℕ) → includes half a ≡ true → includes universe a ≡ true)
    → includes half own ≡ true
    → includes universe other ≡ true
    → includes half other ≡ false
    → IsPlaced universe (partition_of universe context suffix half)
half-IsPlaced universe context suffix half own other within mine there away =
    let (controller, found) = first_outside_finds universe half other there away in
    let (usable, outside) = first_outside_sound universe half found in
    record {
      own = record {
        within =
            every_of universe (sorted_unique half)
              (λ a h. within a (sym (includes-sorted_unique half a) ∙ h));
        increasing = sorted_unique-Increasing half;
        nonempty = length_of (sorted_unique half) own (includes-sorted_unique half own ∙ mine);
      };
      controller = controller;
      named = found;
      usable_controller = usable;
      outside = includes-sorted_unique half controller ∙ outside;
    }

pub some_member : (xs : List ℕ) → (length xs == 0) ≡ false → (a : ℕ) × (includes xs a ≡ true)
some_member [] h = cc
some_member (x ∷ xs) h = (x, rw ((==_iff x x).1 refl) refl)

pub includes_not : (xs : List ℕ) (a : ℕ) → tally a xs ≡ 0 → includes xs a ≡ false
includes_not xs a none_left = elim (Bool-cases (includes xs a)) [
  | inr n ↦ n
  | inl e ↦ (let some_left = includes-tally a xs e in absurd (omega (arith, some_left, none_left)))
]

pub every_member :
    (universe xs : List ℕ) (a : ℕ)
    → every (λ cpu. includes universe cpu) xs ≡ true
    → includes xs a ≡ true
    → includes universe a ≡ true
every_member universe [] a h m = cc
every_member universe (x ∷ xs) a h m = elim (Bool-cases (x == a)) [
  | inl e ↦
      let same : x ≡ a = (==_iff x a).0 e in
      subst (λ c. includes universe c ≡ true) same (ground arith)
  | inr n ↦ every_member universe xs a (ground arith) (ground arith)
]

-- A CPU of one half is usable, and is not in the other.
half_member :
    (universe : List ℕ) (cpus left right : List ℕ)
    → IsContext universe cpus
    → ((a : ℕ) → tally a left + tally a right ≡ tally a cpus)
    → (a : ℕ) → includes left a ≡ true
    → (includes universe a ≡ true) × (includes right a ≡ false)
half_member universe cpus left right good counts a h =
    let here = includes-tally a left h in
    let once = Increasing-tally a cpus good.increasing in
    let sum = counts a in
    (
      every_member universe cpus a good.within (tally-includes a cpus (omega (arith, here, sum))),
      includes_not right a (omega (arith, here, once, sum)),
    )

halves-IsPlaced :
    (universe : List ℕ) (context : Context) (left right : List ℕ)
    → IsContext universe context.cpus
    → ((a : ℕ) → tally a left + tally a right ≡ tally a context.cpus)
    → (length left == 0) ≡ false
    → (length right == 0) ≡ false
    → All (IsPlaced universe) (
        partition_of universe context (codes "-a") left
        ∷ partition_of universe context (codes "-b") right
        ∷ [])
halves-IsPlaced universe context left right good counts some_left some_right =
    let cpus = context.cpus in
    let swapped : (a : ℕ) → tally a right + tally a left ≡ tally a cpus =
      λ a. (let sum = counts a in omega (arith, sum)) in
    let (l, in_left) = some_member left some_left in
    let (r, in_right) = some_member right some_right in
    let (l_there, l_away) = half_member universe cpus left right good counts l in_left in
    let (r_there, r_away) = half_member universe cpus right left good swapped r in_right in
    (
      half-IsPlaced universe context (codes "-a") left l r
          (λ a h. (half_member universe cpus left right good counts a h).0) in_left r_there r_away,
      (
        half-IsPlaced universe context (codes "-b") right r l
            (λ a h. (half_member universe cpus right left good swapped a h).0) in_right l_there
            l_away,
        tt,
      ),
    )

-- The halves of a context of usable CPUs are two contexts, each with a controller.
pub partition_context-IsPlaced :
    (sysfs : Sysfs) (universe : List ℕ) (context : Context) {found : List PinnedContext}
    → IsContext universe context.cpus
    → partition_context sysfs universe context ≡ ok found
    → All (IsPlaced universe) found
unfolding partition_context
partition_context-IsPlaced sysfs universe context good h =
    let (_, h₁) = then_returns (require (leb 2 (length context.cpus)) no_controller) _ h in
    let (units, grouped, h₂) = bind_returns (core_units sysfs context.cpus []) _ h₁ in
    let (left, right) = halves context.cpus units in
    let parts = not (length left == 0 || length right == 0) in
    let (parted, last) = then_returns (require parts unpartitioned) _ h₂ in
    let parted = require_holds parts unpartitioned parted in
    subst (All (IsPlaced universe)) (ok_inj last) (
      halves-IsPlaced universe context left right good
        (λ a.
          halves-tally a context.cpus units
            (omega (arith, core_units-total a sysfs context.cpus [] grouped)))
        (ground arith) (ground arith))
