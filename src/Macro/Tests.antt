-- ===== src/Macro/Tests.antt =====
-- A snapshot that four sources confirm.
use equi_seek.Prelude.{ℕ, ◌-◌, ◌≤◌, String, ◌≡◌, true, Option, none, some, List, [], ◌∷◌, ◌↔◌}
use equi_seek.Macro.Freshness.{
  SourceCheckStatus, MacroSourceCheck, MacroSnapshot, succeeded_count, assess_macro_freshness,
  remember_macro_validity, snapshot_is_verified_current,
}
use equi_seek.Macro.Current.{NothingNewer, snapshot_is_verified_current_iff}

abbrev check : String → SourceCheckStatus → Option ℕ → MacroSourceCheck
check key status latest = record {
  key = key;
  name = key;
  url = "https://example.org";
  status = status;
  latest_published_on = latest;
  detail = "";
}

abbrev checks : List MacroSourceCheck
checks =
    check "nbs" SourceCheckStatus.succeeded (some 99)
    ∷ check "pboc" SourceCheckStatus.succeeded (some 100)
    ∷ check "safe" SourceCheckStatus.failed (some 120)
    ∷ check "mof" SourceCheckStatus.succeeded none
    ∷ []

abbrev snapshot : MacroSnapshot
snapshot = record { as_of = 100; snapshot_key = "hash" }

abbrev day_of : ℕ → ℕ
day_of t = t - 1000

snapshot_is_verified_current_iff_example :
    (snapshot_is_verified_current day_of snapshot 111 45 110
        (remember_macro_validity snapshot (assess_macro_freshness 100 checks 110 1110 45) [])
      ≡ true)
    ↔ ((100 ≤ 111)
        × (111 - 100 ≤ 45)
        × NothingNewer 100 checks
        × (3 ≤ succeeded_count checks)
        × (110 - 100 ≤ 45)
        × (day_of 1110 ≡ 110))
snapshot_is_verified_current_iff_example =
    snapshot_is_verified_current_iff day_of snapshot checks 110 1110 45 [] 111 45 110
