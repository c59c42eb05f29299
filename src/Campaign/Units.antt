-- ===== src/Campaign/Units.antt =====
-- The cores and clusters of CPUs, and `partitionContext`: src/fault-affinity/campaign-topology.mjs.
pub mod Groups
pub mod Partition
use fault_affinity.Prelude.{
  ℕ, zero, suc, ◌+◌, ◌*◌, Bool, true, false, List, [], ◌∷◌, ◌++◌, map, Option, none, some, length,
  every, some_of, includes, select, ltb, leb, ◌==◌, if◌then◌else◌, not, ◌&&◌, ◌||◌, Outcome, ok,
  throw, ◌>>=◌, ◌>>◌, require, present,
}
use fault_affinity.Prelude.Sorting.{sort_by}
use fault_affinity.Prelude.Increasing.{sorted_unique}
use fault_affinity.Text.{Text, text_eq, codes, decimal, parse_decimal}
use fault_affinity.Attempt.Launch.{byte_length}
use fault_affinity.Schedule.Orders.{RunnerError, max_cpu_id}
use fault_affinity.CpuList.{expand_cpu_list, compress_cpu_list}
use fault_affinity.Campaign.Sysfs.{
  unreadable_file, bad_file, bad_line, bad_cpu_spec, no_allowance, few_cpus, overlapping_classes,
  uncovered_cpu, no_controller, unpartitioned, compression, absent, unreadable, content,
  TopologyError, FileRead, Sysfs, max_sysfs_text_bytes, drop_newline, is_line, line_of, some_line,
  read_line, read_optional_line, spec_result, parse_cpu_spec, intersection, union, same_cpu_list,
  is_uint, is_uint_text, first_outside, id_or, unknown_package, core_unit_key,
}

-- An entry of a Map from keys to CPUs; the label is the first CPU's.
pub record CpuUnit : Type 0 where
  pub key : Text
  pub label : Text
  pub cpus : List ℕ

-- The entry of a key takes one CPU more, or a new entry comes last.
unfoldable pub add_to_unit : Text → Text → ℕ → List CpuUnit → List CpuUnit
add_to_unit key label cpu [] = (record { key = key; label = label; cpus = cpu ∷ [] }) ∷ []
add_to_unit key label cpu (unit ∷ units) =
    let later = add_to_unit key label cpu units in
    if text_eq unit.key key
    then record unit { cpus = unit.cpus ++ cpu ∷ [] } ∷ units
    else unit ∷ later

-- `left < right` on strings.
abbrev pub text_ltb : Text → Text → Bool
text_ltb [] [] = false
text_ltb [] (d ∷ right) = true
text_ltb (c ∷ left) [] = false
text_ltb (c ∷ left) (d ∷ right) = ltb c d || (c == d && text_ltb left right)

-- The comparator does not put `left` behind `right`.
abbrev pub key_first : CpuUnit → CpuUnit → Bool
key_first left right = not (text_ltb right.key left.key)

abbrev pub ordered_units : List CpuUnit → List CpuUnit
ordered_units units = sort_by key_first units

unfoldable pub core_units : Sysfs → List ℕ → List CpuUnit → Outcome TopologyError (List CpuUnit)
core_units sysfs [] units = ok units
core_units sysfs (cpu ∷ cpus) units =
    core_unit_key sysfs cpu >>= (λ key. core_units sysfs cpus (add_to_unit key key cpu units))

-- Every other list goes to the left, from the first on, and the others to the right.
abbrev pub alternate : List (List ℕ) → List ℕ × List ℕ
alternate [] = ([], [])
alternate (cpus ∷ rest) = let (left, right) = alternate rest in (cpus ++ right, left)

pub record Context : Type 0 where
  pub id : Text
  pub kind : Text
  pub cpus : List ℕ
  pub cluster : Option Text

pub record PinnedContext : Type 0 where
  pub id : Text
  pub kind : Text
  pub cpus : List ℕ
  pub cluster : Text
  pub controller_cpu : Option ℕ

abbrev pub no_cluster : Text
no_cluster = codes "-"

abbrev pub partition_of : List ℕ → Context → Text → List ℕ → PinnedContext
partition_of universe context suffix cpus = record {
  id = context.id ++ suffix;
  kind = context.kind ++ codes "-partition";
  cpus = sorted_unique cpus;
  cluster = no_cluster;
  controller_cpu = first_outside universe cpus;
}

-- The two halves: whole cores where there are two or more, else single CPUs.
abbrev pub halves : List ℕ → List CpuUnit → List ℕ × List ℕ
halves cpus units =
    if leb 2 (length units)
    then alternate (map (λ unit. unit.cpus) (ordered_units units))
    else alternate (map (λ cpu. cpu ∷ []) cpus)

unfoldable pub partition_context :
    Sysfs → List ℕ → Context → Outcome TopologyError (List PinnedContext)
partition_context sysfs universe context = do
  require (leb 2 (length context.cpus)) no_controller
  units ← core_units sysfs context.cpus []
  let (left, right) = halves context.cpus units
  require (not (length left == 0 || length right == 0)) unpartitioned
  ok (
      partition_of universe context (codes "-a") left
      ∷ partition_of universe context (codes "-b") right
      ∷ [])
