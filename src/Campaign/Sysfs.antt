-- ===== src/Campaign/Sysfs.antt =====
-- What src/fault-affinity/campaign-topology.mjs reads of sysfs, and its lists of CPUs.
use fault_affinity.Prelude.{
  ℕ, ◌*◌, Bool, true, false, List, [], ◌∷◌, ◌++◌, Option, none, some, length, every, includes,
  select, leb, ◌==◌, if◌then◌else◌, not, ◌&&◌, Outcome, ok, throw, ◌>>=◌, ◌>>◌, require,
}
use fault_affinity.Prelude.Increasing.{sorted_unique}
use fault_affinity.Text.{Text, codes, decimal, parse_decimal}
use fault_affinity.Attempt.Launch.{byte_length}
use fault_affinity.Schedule.Orders.{RunnerError, max_cpu_id}
use fault_affinity.CpuList.{expand_cpu_list}

-- Each is a CampaignTopologyError, but an error of `compressCpuList` passes as it is.
pub data TopologyError : Type 0 where
  unreadable_file bad_file bad_line bad_cpu_spec no_allowance few_cpus : TopologyError
  overlapping_classes uncovered_cpu no_controller unpartitioned : TopologyError
  compression : RunnerError → TopologyError

-- What a read of a file finds; `absent` is ENOENT, ENOTDIR or EACCES.
pub data FileRead : Type 0 where
  absent unreadable : FileRead
  content : Text → FileRead

-- The files that discovery reads, those of a CPU by its number.
pub record Sysfs : Type 0 where
  pub online : FileRead
  pub performance : FileRead
  pub efficient : FileRead
  pub package_id : ℕ → FileRead
  pub core_id : ℕ → FileRead
  pub cluster_id : ℕ → FileRead
  pub shared_l2 : ℕ → FileRead

abbrev pub max_sysfs_text_bytes : ℕ
max_sysfs_text_bytes = 64 * 1024

abbrev pub drop_newline : Text → Text
drop_newline [] = []
drop_newline (c ∷ []) = if c == 10 then [] else c ∷ []
drop_newline (c ∷ d ∷ rest) = c ∷ drop_newline (d ∷ rest)

-- `^([^\n]+)\n?$`, without a carriage return.
abbrev pub is_line : Text → Bool
is_line text =
    let body = drop_newline text in
    not (length body == 0) && every (λ c. not (c == 10) && not (c == 13)) body

abbrev pub line_of : Text → Outcome TopologyError Text
line_of text = do
  require
      (not (length text == 0)
        && (leb (byte_length text) max_sysfs_text_bytes && every (λ c. not (c == 0)) text))
      bad_file
  require (is_line text) bad_line
  ok (drop_newline text)

abbrev pub some_line : Outcome TopologyError Text → Outcome TopologyError (Option Text)
some_line (throw e) = throw e
some_line (ok line) = ok (some line)

-- `readSysfsLine`, of a file that must be there, and of one that need not.
unfoldable pub read_line : FileRead → Outcome TopologyError Text
read_line absent = throw unreadable_file
read_line unreadable = throw unreadable_file
read_line (content text) = line_of text

unfoldable pub read_optional_line : FileRead → Outcome TopologyError (Option Text)
read_optional_line absent = ok none
read_optional_line unreadable = throw unreadable_file
read_optional_line (content text) = some_line (line_of text)

abbrev pub spec_result {ℓ} : {A : Type ℓ} → Outcome RunnerError A → Outcome TopologyError A
spec_result (throw e) = throw bad_cpu_spec
spec_result (ok cpus) = ok cpus

unfoldable pub parse_cpu_spec : Text → Outcome TopologyError (List ℕ)
parse_cpu_spec spec = spec_result (expand_cpu_list spec)

unfoldable pub intersection : List ℕ → List ℕ → List ℕ
intersection left right = sorted_unique (select (λ value. includes right value) left)

unfoldable pub union : List ℕ → List ℕ → List ℕ
union left right = sorted_unique (left ++ right)

abbrev pub same_cpu_list : List ℕ → List ℕ → Bool
same_cpu_list [] [] = true
same_cpu_list [] (y ∷ ys) = false
same_cpu_list (x ∷ xs) [] = false
same_cpu_list (x ∷ xs) (y ∷ ys) = x == y && same_cpu_list xs ys

-- `uintText(value) !== null`
abbrev pub is_uint : Option ℕ → Bool
is_uint none = false
is_uint (some value) = leb value max_cpu_id

abbrev pub is_uint_text : Text → Bool
is_uint_text text = is_uint (parse_decimal text)

unfoldable pub first_outside : List ℕ → List ℕ → Option ℕ
first_outside [] active = none
first_outside (cpu ∷ universe) active =
    let later = first_outside universe active in if includes active cpu then later else some cpu

-- The text of an id, or another where there is none.
abbrev pub id_or : Option Text → Text → Text
id_or none other = other
id_or (some text) other = if is_uint_text text then text else other

abbrev pub unknown_package : Text
unknown_package = codes "unknown"

unfoldable pub core_unit_key : Sysfs → ℕ → Outcome TopologyError Text
core_unit_key sysfs cpu = do
  package_text ← read_optional_line (sysfs.package_id cpu)
  core_text ← read_optional_line (sysfs.core_id cpu)
  ok (id_or package_text unknown_package ++ (b':' ∷ id_or core_text (codes "cpu" ++ decimal cpu)))
