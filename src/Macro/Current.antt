-- ===== src/Macro/Current.antt =====
-- When src/aegisrun/macro/freshness.py lets a snapshot count as current.
use equi_seek.Prelude.{
  ℕ, ◌-◌, ◌≤◌, eq_refl, ◌≡◌, refl, true, false, ◌&&◌, Option, none, some, List, [], ◌∷◌, ◌↔◌, arith,
  length, Bool-cases, inl, inr,
}
use equi_seek.Dict.{Dict, lookup-insert}
use equi_seek.Macro.Freshness.{
  SourceCheckStatus, MacroSourceCheck, MacroValidity, MacroSnapshot, is_newer, has_succeeded,
  is_after, newer_checks, succeeded_count, status_of, is_current, assess_macro_freshness,
  remember_macro_validity, snapshot_is_verified_current,
}

-- what the check found is not after the day, if it succeeded
abbrev pub IsOld : ℕ → MacroSourceCheck → Type 0
IsOld as_of c =
    (day : ℕ)
    → c.status ≡ SourceCheckStatus.succeeded
    → c.latest_published_on ≡ some day
    → day ≤ as_of

-- each source that was reached published nothing after the day
abbrev pub NothingNewer : ℕ → List MacroSourceCheck → Type 0
NothingNewer as_of [] = Unit
NothingNewer as_of (c ∷ cs) = IsOld as_of c × NothingNewer as_of cs

found_old :
    (as_of : ℕ) (status : SourceCheckStatus) (latest : Option ℕ)
    → (has_succeeded status && is_after latest as_of) ≡ false
    → (day : ℕ) → status ≡ SourceCheckStatus.succeeded
    → latest ≡ some day
    → day ≤ as_of
found_old as_of SourceCheckStatus.succeeded (some d) h day s l = ground arith
found_old as_of SourceCheckStatus.succeeded none h day s l = absurd (cc)
found_old as_of SourceCheckStatus.failed latest h day s l = absurd (cc)

old_found :
    (as_of : ℕ) (status : SourceCheckStatus) (latest : Option ℕ)
    → ((day : ℕ) → status ≡ SourceCheckStatus.succeeded → latest ≡ some day → day ≤ as_of)
    → (has_succeeded status && is_after latest as_of) ≡ false
old_found as_of SourceCheckStatus.succeeded (some d) h = ground (arith, h d refl refl)
old_found as_of SourceCheckStatus.succeeded none h = refl
old_found as_of SourceCheckStatus.failed latest h = refl

newer_checks→NothingNewer :
    (as_of : ℕ) (cs : List MacroSourceCheck)
    → length (newer_checks as_of cs) ≡ 0
    → NothingNewer as_of cs
unfolding newer_checks
newer_checks→NothingNewer as_of [] h = tt
newer_checks→NothingNewer as_of (c ∷ cs) h = elim (Bool-cases (is_newer as_of c)) [
  | inl newer ↦ absurd (ground arith)
  | inr old ↦ (
    found_old as_of c.status c.latest_published_on old,
    newer_checks→NothingNewer as_of cs (ground arith),
  )
]

NothingNewer→newer_checks :
    (as_of : ℕ) (cs : List MacroSourceCheck)
    → NothingNewer as_of cs
    → length (newer_checks as_of cs) ≡ 0
unfolding newer_checks
NothingNewer→newer_checks as_of [] h = refl
NothingNewer→newer_checks as_of (c ∷ cs) (old, rest) = ground (
  arith,
  old_found as_of c.status c.latest_published_on old,
  NothingNewer→newer_checks as_of cs rest,
)

status_of→limits :
    (newer age max count : ℕ)
    → is_current (status_of newer age max count) ≡ true
    → (newer ≡ 0) × (age ≤ max) × (3 ≤ count)
unfolding status_of
status_of→limits newer age max count h = (ground arith, ground arith, ground arith)

limits→status_of :
    (newer age max count : ℕ)
    → newer ≡ 0
    → age ≤ max
    → 3 ≤ count
    → is_current (status_of newer age max count) ≡ true
unfolding status_of
limits→status_of newer age max count a b c = ground arith

-- A snapshot whose assessment was remembered last counts as verified and current exactly if the day in
-- question is not before the snapshot and not further from it than the limit asked for, no source that
-- was reached published after the snapshot, at least three sources were reached, the snapshot was within
-- the limit of the assessment, and the assessment was made today.
pub snapshot_is_verified_current_iff :
    (local_day : ℕ → ℕ) (s : MacroSnapshot) (checks : List MacroSourceCheck)
    (day checked_at limit : ℕ) (cache : Dict MacroValidity) (reference_date max_age_days today : ℕ)
    → (snapshot_is_verified_current local_day s reference_date max_age_days today (
          remember_macro_validity s
            (assess_macro_freshness s.as_of checks day checked_at limit)
            cache)
        ≡ true)
      ↔ ((s.as_of ≤ reference_date)
          × (reference_date - s.as_of ≤ max_age_days)
          × NothingNewer s.as_of checks
          × (3 ≤ succeeded_count checks)
          × (day - s.as_of ≤ limit)
          × (local_day checked_at ≡ today))
unfolding snapshot_is_verified_current remember_macro_validity assess_macro_freshness
snapshot_is_verified_current_iff local_day s checks day checked_at limit cache reference_date
      max_age_days today =
    let v : MacroValidity = assess_macro_freshness s.as_of checks day checked_at limit in
    let found = lookup-insert s.snapshot_key s.snapshot_key v cache in
    let newer : ℕ = length (newer_checks s.as_of checks) in
    (
      (λ h.
          let allowed : is_current (status_of newer (day - s.as_of) limit (succeeded_count checks))
              ≡ true =
            ground (arith, found, eq_refl s.snapshot_key) in
          let (a, b, c) =
            status_of→limits newer (day - s.as_of) limit (succeeded_count checks) allowed in
          (
            ground (arith, found, eq_refl s.snapshot_key),
            ground (arith, found, eq_refl s.snapshot_key),
            newer_checks→NothingNewer s.as_of checks a,
            c,
            b,
            ground (arith, found, eq_refl s.snapshot_key),
          )),
      (λ (after, near, old, reached, fresh, made). ground (
        arith,
        found,
        eq_refl s.snapshot_key,
        limits→status_of newer (day - s.as_of) limit (succeeded_count checks)
            (NothingNewer→newer_checks s.as_of checks old) fresh reached,
      )),
    )
