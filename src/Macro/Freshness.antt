-- ===== src/Macro/Freshness.antt =====
-- `assess_macro_freshness`, `remember_macro_validity` and `snapshot_is_verified_current` of
-- src/aegisrun/macro/freshness.py. A date is the number of its day, a time that of its second.
use equi_seek.Prelude.{
  ℕ, ◌+◌, ◌-◌, String, Bool, true, false, ◌&&◌, ◌||◌, Option, none, some, List, [], ◌∷◌, length,
  leb, ltb, nat_eq, if◌then◌else◌,
}
use equi_seek.Dict.{Dict, lookup, insert}

pub data SourceCheckStatus : Type 0 where
  succeeded : SourceCheckStatus
  failed : SourceCheckStatus

pub data MacroValidityStatus : Type 0 where
  current : MacroValidityStatus
  stale : MacroValidityStatus
  unverified : MacroValidityStatus

pub record MacroSourceCheck : Type 0 where
  pub key : String
  pub name : String
  pub url : String
  pub status : SourceCheckStatus
  pub latest_published_on : Option ℕ
  pub detail : String

-- the text of the reason is left out
pub record MacroValidity : Type 0 where
  pub status : MacroValidityStatus
  pub checked_at : ℕ
  pub snapshot_as_of : ℕ
  pub age_days : ℕ
  pub max_age_days : ℕ
  pub current_decision_allowed : Bool
  pub source_checks : List MacroSourceCheck
  pub newer_release_count : ℕ

abbrev pub default_max_age_days : ℕ
default_max_age_days = 45

abbrev pub min_successful_source_checks : ℕ
min_successful_source_checks = 3

abbrev pub has_succeeded : SourceCheckStatus → Bool
has_succeeded SourceCheckStatus.succeeded = true
has_succeeded SourceCheckStatus.failed = false

abbrev pub is_after : Option ℕ → ℕ → Bool
is_after none as_of = false
is_after (some day) as_of = ltb as_of day

-- a check that succeeded and found a release after the snapshot
abbrev pub is_newer : ℕ → MacroSourceCheck → Bool
is_newer as_of c = has_succeeded c.status && is_after c.latest_published_on as_of

unfoldable pub newer_checks : ℕ → List MacroSourceCheck → List MacroSourceCheck
newer_checks as_of [] = []
newer_checks as_of (c ∷ cs) =
    let rest = newer_checks as_of cs in if is_newer as_of c then c ∷ rest else rest

unfoldable pub succeeded_count : List MacroSourceCheck → ℕ
succeeded_count [] = 0
succeeded_count (c ∷ cs) = (if has_succeeded c.status then 1 else 0) + succeeded_count cs

abbrev pub is_current : MacroValidityStatus → Bool
is_current MacroValidityStatus.current = true
is_current MacroValidityStatus.stale = false
is_current MacroValidityStatus.unverified = false

unfoldable pub status_of : (newer age_days max_age_days count : ℕ) → MacroValidityStatus
status_of newer age_days max_age_days count =
    if ltb 0 newer || ltb max_age_days age_days
    then MacroValidityStatus.stale
    else if ltb count min_successful_source_checks
    then MacroValidityStatus.unverified
    else MacroValidityStatus.current

unfoldable pub assess_macro_freshness :
    (as_of : ℕ) → List MacroSourceCheck → (today checked_at max_age_days : ℕ) → MacroValidity
assess_macro_freshness as_of checks today checked_at max_age_days =
    let age_days = today - as_of in
    let newer = length (newer_checks as_of checks) in
    let status = status_of newer age_days max_age_days (succeeded_count checks) in
    record {
      status = status;
      checked_at = checked_at;
      snapshot_as_of = as_of;
      age_days = age_days;
      max_age_days = max_age_days;
      current_decision_allowed = is_current status;
      source_checks = checks;
      newer_release_count = newer;
    }

-- a snapshot, by its day and the hash of all its content
pub record MacroSnapshot : Type 0 where
  pub as_of : ℕ
  pub snapshot_key : String

unfoldable pub remember_macro_validity :
    MacroSnapshot → MacroValidity → Dict MacroValidity → Dict MacroValidity
remember_macro_validity s validity cache = insert s.snapshot_key validity cache

module _ (local_day : ℕ → ℕ) where
  abbrev pub is_valid_today : Option MacroValidity → ℕ → Bool
  is_valid_today none today = false
  is_valid_today (some v) today =
      v.current_decision_allowed && nat_eq (local_day v.checked_at) today

  -- the day of a time in the local zone is an argument
  unfoldable pub snapshot_is_verified_current :
      MacroSnapshot → (reference_date max_age_days today : ℕ) → Dict MacroValidity → Bool
  snapshot_is_verified_current s reference_date max_age_days today cache =
      leb s.as_of reference_date
      && leb (reference_date - s.as_of) max_age_days
      && is_valid_today (lookup s.snapshot_key cache) today
