-- ===== src/Campaign/Profiles.antt =====
-- CAMPAIGN_PROFILES and `profileByName` of src/fault-affinity/campaign-topology.mjs.
use fault_affinity.Prelude.{ℕ, Option, none, some}

-- `inherited` is a name that CAMPAIGN_PROFILES has from Object.prototype, such as `toString`;
-- `unknown` is any other.
pub data ProfileName : Type 0 where
  quick standard full inherited unknown : ProfileName

pub record Profile : Type 0 where
  pub baseline_children : ℕ
  pub baseline_waves : ℕ
  pub group_rounds : ℕ
  pub pinned_rounds : ℕ
  pub exact_rounds : ℕ
  pub attempts_per_leg : ℕ
  pub warmup_ms : ℕ
  pub recovery_ms : ℕ

abbrev pub quick_profile : Profile
quick_profile = record {
  baseline_children = 4;
  baseline_waves = 3;
  group_rounds = 3;
  pinned_rounds = 3;
  exact_rounds = 3;
  attempts_per_leg = 3;
  warmup_ms = 0;
  recovery_ms = 5_000;
}

abbrev pub standard_profile : Profile
standard_profile = record {
  baseline_children = 8;
  baseline_waves = 10;
  group_rounds = 10;
  pinned_rounds = 10;
  exact_rounds = 10;
  attempts_per_leg = 10;
  warmup_ms = 0;
  recovery_ms = 15_000;
}

abbrev pub full_profile : Profile
full_profile = record {
  baseline_children = 16;
  baseline_waves = 50;
  group_rounds = 50;
  pinned_rounds = 200;
  exact_rounds = 200;
  attempts_per_leg = 20;
  warmup_ms = 0;
  recovery_ms = 30_000;
}

-- What a look-up finds where it finds something: a profile, or a value without a profile's fields.
pub data NamedProfile : Type 0 where
  own : Profile → NamedProfile
  inherited_value : NamedProfile

-- A field that the value does not have is undefined.
abbrev pub number_of : (Profile → ℕ) → NamedProfile → Option ℕ
number_of field (own profile) = some (field profile)
number_of field inherited_value = none

abbrev pub profile_by_name : ProfileName → Option NamedProfile
profile_by_name quick = some (own quick_profile)
profile_by_name standard = some (own standard_profile)
profile_by_name full = some (own full_profile)
profile_by_name inherited = some inherited_value
profile_by_name unknown = none
