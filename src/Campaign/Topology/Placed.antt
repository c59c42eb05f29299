-- ===== src/Campaign/Topology/Placed.antt =====
-- The contexts of a topology, and where their controllers are.
use fault_affinity.Prelude.{
  ℕ, ◌≤◌, ◌≡◌, refl, sym, ◌∙◌, subst, ◌⊎◌, inl, inr, true, List, [], ◌∷◌, ◌++◌, map, All, length,
  includes, select, ◌==◌, ==_iff, Option, none, some, ◌&&◌, ok, bind_returns, ok_inj, Bool-cases,
  by_branch, arith,
}
use fault_affinity.Prelude.Sorting.{All-to_sort_by}
use fault_affinity.Prelude.Increasing.{
  Increasing, sorted_unique, sorted_unique-Increasing, includes-sorted_unique, includes-select,
}
use fault_affinity.Text.{Text, codes, text_eq}
use fault_affinity.Campaign.Sysfs.{Sysfs, intersection, first_outside}
use fault_affinity.Campaign.Units.{
  CpuUnit, add_to_unit, key_first, ordered_units, Context, PinnedContext,
}
use fault_affinity.Campaign.Units.Partition.{
  first_outside_sound, every_of, length_of, some_member, IsContext, IsPlaced,
  partition_context-IsPlaced,
}
use fault_affinity.Campaign.Topology.{
  Cluster, cluster_for_cpu, add_cluster, clusters_of, cluster_context, class_context,
  efficient_contexts, or_uniform, pinned_of, pinned_contexts,
}

All-append_to :
    {A : Type 0} (P : A → Type 0) (xs ys : List A) → All P xs → All P ys → All P (xs ++ ys)
All-append_to P [] ys h k = k
All-append_to P (x ∷ xs) ys (first, later) k = (first, All-append_to P xs ys later k)

pub includes-intersection :
    (left right : List ℕ) (a : ℕ)
    → includes (intersection left right) a ≡ (includes left a && includes right a)
unfolding intersection
includes-intersection left right a =
    includes-sorted_unique (select (λ value. includes right value) left) a
    ∙ includes-select (λ value. includes right value) left a

abbrev pub IsGroup : List ℕ → Context → Type 0
IsGroup usable context = IsContext usable context.cpus

-- A unit of usable CPUs, with at least one.
abbrev Fits : List ℕ → CpuUnit → Type 0
Fits usable unit =
    ((a : ℕ) → includes unit.cpus a ≡ true → includes usable a ≡ true)
    × ((a : ℕ) × (includes unit.cpus a ≡ true))

includes_snoc :
    (xs : List ℕ) (cpu a : ℕ)
    → includes (xs ++ cpu ∷ []) a ≡ true
    → (includes xs a ≡ true) ⊎ (cpu ≡ a)
includes_snoc [] cpu a h = inr ((==_iff cpu a).0 (ground arith))
includes_snoc (x ∷ xs) cpu a h = elim (Bool-cases (x == a)) [
  | inl e ↦ inl (rw e refl)
  | inr n ↦ elim (includes_snoc xs cpu a (ground arith)) [
    | inl later ↦ inl (ground (arith, later))
    | inr same ↦ inr same
  ]
]

includes_grown :
    (xs : List ℕ) (cpu a : ℕ) → includes xs a ≡ true → includes (xs ++ cpu ∷ []) a ≡ true
includes_grown [] cpu a h = cc
includes_grown (x ∷ xs) cpu a h = elim (Bool-cases (x == a)) [
  | inl e ↦ rw e refl
  | inr n ↦ (let later = includes_grown xs cpu a (ground arith) in ground (arith, later))
]

add_to_unit-Fits :
    (usable : List ℕ) (key label : Text) (cpu : ℕ) (units : List CpuUnit)
    → includes usable cpu ≡ true
    → All (Fits usable) units
    → All (Fits usable) (add_to_unit key label cpu units)
unfolding add_to_unit
add_to_unit-Fits usable key label cpu [] there fit = (
  (
    λ a h. subst (λ c. includes usable c ≡ true) ((==_iff cpu a).0 (ground arith)) there,
    (cpu, rw ((==_iff cpu cpu).1 refl) refl),
  ),
  tt,
)
add_to_unit-Fits usable key label cpu (unit ∷ units) there ((within, (a, mine)), fit) =
    by_branch (All (Fits usable)) (text_eq unit.key key)
      (λ _. (
        (
          λ b h. elim (includes_snoc unit.cpus cpu b h) [
            | inl old ↦ within b old
            | inr same ↦ subst (λ c. includes usable c ≡ true) same there
          ],
          (a, includes_grown unit.cpus cpu a mine),
        ),
        fit,
      ))
      (λ _. ((within, (a, mine)), add_to_unit-Fits usable key label cpu units there fit))

add_cluster-Fits :
    (usable : List ℕ) (cluster : Option Cluster) (cpu : ℕ) (units : List CpuUnit)
    → includes usable cpu ≡ true
    → All (Fits usable) units
    → All (Fits usable) (add_cluster cluster cpu units)
add_cluster-Fits usable none cpu units there fit = fit
add_cluster-Fits usable (some cluster) cpu units there fit =
    add_to_unit-Fits usable cluster.key cluster.label cpu units there fit

clusters_of-Fits :
    (sysfs : Sysfs) (usable cpus : List ℕ) (units : List CpuUnit) {found : List CpuUnit}
    → ((a : ℕ) → includes cpus a ≡ true → includes usable a ≡ true)
    → All (Fits usable) units
    → clusters_of sysfs usable cpus units ≡ ok found
    → All (Fits usable) found
unfolding clusters_of
clusters_of-Fits sysfs usable [] units within fit h = subst (All (Fits usable)) (ok_inj h) fit
clusters_of-Fits sysfs usable (cpu ∷ cpus) units within fit h =
    let (cluster, _, later) = bind_returns (cluster_for_cpu sysfs usable cpu) _ h in
    let there : includes usable cpu ≡ true = within cpu (rw ((==_iff cpu cpu).1 refl) refl) in
    clusters_of-Fits sysfs usable cpus (add_cluster cluster cpu units)
      (λ a k. within a (ground (arith, k))) (add_cluster-Fits usable cluster cpu units there fit)
      later

module _ (short_digest : Text → Text) where
  clusters-IsGroup :
      (usable : List ℕ) (units : List CpuUnit)
      → All (Fits usable) units
      → All (IsGroup usable) (map (cluster_context short_digest) units)
  clusters-IsGroup usable [] fit = tt
  clusters-IsGroup usable (unit ∷ units) ((within, (a, mine)), fit) = (
    record {
      within =
          every_of usable (sorted_unique unit.cpus)
            (λ b h. within b (sym (includes-sorted_unique unit.cpus b) ∙ h));
      increasing = sorted_unique-Increasing unit.cpus;
      nonempty = length_of (sorted_unique unit.cpus) a (includes-sorted_unique unit.cpus a ∙ mine);
    },
    clusters-IsGroup usable units fit,
  )

-- A class of usable CPUs, in increasing order.
pub record IsClass (usable : List ℕ) (cpus : List ℕ) : Type 0 where
  pub within : (a : ℕ) → includes cpus a ≡ true → includes usable a ≡ true
  pub increasing : Increasing cpus

class_context-IsGroup :
    (usable : List ℕ) (id kind : Text) (cpus : List ℕ)
    → IsClass usable cpus
    → All (IsGroup usable) (class_context id kind cpus)
class_context-IsGroup usable id kind cpus good =
    by_branch (All (IsGroup usable)) (length cpus == 0) (λ _. tt)
      (λ some_left.
        let (a, mine) = some_member cpus some_left in
        (
          record {
            within = every_of usable cpus good.within;
            increasing = good.increasing;
            nonempty = length_of cpus a mine;
          },
          tt,
        ))

or_uniform-IsGroup :
    (usable : List ℕ) (contexts : List Context)
    → IsClass usable usable
    → 1 ≤ length usable
    → All (IsGroup usable) contexts
    → All (IsGroup usable) (or_uniform usable contexts)
or_uniform-IsGroup usable (context ∷ contexts) good some_cpu h = h
or_uniform-IsGroup usable [] good some_cpu h = (
  record {
    within = every_of usable usable good.within;
    increasing = good.increasing;
    nonempty = some_cpu;
  },
  tt,
)

pub contexts-IsGroup :
    (short_digest : Text → Text) (sysfs : Sysfs) (usable p_cpus e_cpus : List ℕ)
    {clusters : List Context}
    → IsClass usable usable
    → 1 ≤ length usable
    → IsClass usable p_cpus
    → IsClass usable e_cpus
    → efficient_contexts short_digest sysfs usable e_cpus ≡ ok clusters
    → All
        (IsGroup usable)
        (or_uniform usable (class_context (codes "pcores") (codes "pcore") p_cpus ++ clusters))
unfolding efficient_contexts
contexts-IsGroup short_digest sysfs usable p_cpus e_cpus {clusters} all_good some_cpu p e h =
    let (units, grouped, last) = bind_returns (clusters_of sysfs usable e_cpus []) _ h in
    let fit = clusters_of-Fits sysfs usable e_cpus [] e.within tt grouped in
    let ordered = All-to_sort_by (Fits usable) key_first units fit in
    let made =
      All-append_to (IsGroup usable) (class_context (codes "ecores") (codes "ecore") e_cpus) _
        (class_context-IsGroup usable (codes "ecores") (codes "ecore") e_cpus e)
        (clusters-IsGroup short_digest usable (ordered_units units) ordered) in
    let held : All (IsGroup usable) clusters = subst (All (IsGroup usable)) (ok_inj last) made in
    or_uniform-IsGroup usable (class_context (codes "pcores") (codes "pcore") p_cpus ++ clusters)
      all_good some_cpu
      (All-append_to (IsGroup usable) (class_context (codes "pcores") (codes "pcore") p_cpus)
        clusters (class_context-IsGroup usable (codes "pcores") (codes "pcore") p_cpus p) held)

pinned_of-IsPlaced :
    (sysfs : Sysfs) (usable : List ℕ) (context : Context) (controller : Option ℕ)
    {found : List PinnedContext}
    → IsGroup usable context
    → first_outside usable context.cpus ≡ controller
    → pinned_of sysfs usable context controller ≡ ok found
    → All (IsPlaced usable) found
pinned_of-IsPlaced sysfs usable context none good e h =
    partition_context-IsPlaced sysfs usable context good h
pinned_of-IsPlaced sysfs usable context (some controller) good e h =
    let (there, outside) = first_outside_sound usable context.cpus e in
    subst (All (IsPlaced usable)) (ok_inj h) (
      record {
        own = good;
        controller = controller;
        named = refl;
        usable_controller = there;
        outside = outside;
      },
      tt,
    )

pub pinned_contexts-IsPlaced :
    (sysfs : Sysfs) (usable : List ℕ) (contexts : List Context) {found : List PinnedContext}
    → All (IsGroup usable) contexts
    → pinned_contexts sysfs usable contexts ≡ ok found
    → All (IsPlaced usable) found
unfolding pinned_contexts
pinned_contexts-IsPlaced sysfs usable [] good h = subst (All (IsPlaced usable)) (ok_inj h) tt
pinned_contexts-IsPlaced sysfs usable (context ∷ contexts) (own, others) h =
    let (here, first, h₁) =
      bind_returns (pinned_of sysfs usable context (first_outside usable context.cpus)) _ h in
    let (rest, later, last) = bind_returns (pinned_contexts sysfs usable contexts) _ h₁ in
    subst (All (IsPlaced usable)) (ok_inj last) (
      All-append_to (IsPlaced usable) here rest
        (pinned_of-IsPlaced sysfs usable context (first_outside usable context.cpus) own refl first)
        (pinned_contexts-IsPlaced sysfs usable contexts others later))
