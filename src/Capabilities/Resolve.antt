-- ===== src/Capabilities/Resolve.antt =====
-- The walk of `resolve` in src/aegisrun/harness/capabilities.py, step by step.
use equi_seek.Prelude.{
  String, ◌≡◌, true, false, none, some, List, [], ◌∷◌, elem, all, arith, ◌↔◌, inl, inr, Bool-cases,
  Option-cases,
}
use equi_seek.Capabilities.Registry.{
  Layer, Entry, returned, is_allowed, find_entry, provide, resolve,
}

module _ {ℓ} {P : Type ℓ} (kind name : String) (required : List String) where
  -- An entry of the first registry that has one provides `p`; the registries up to it are open and
  -- allow the name, and the entry has the required features.
  pub data Provided (p : P) : List (Layer P) → Type ℓ where
    own :
        {l : Layer P} {parents : List (Layer P)} (e : Entry P)
        → l.closed ≡ false
        → is_allowed l.allowed kind name ≡ true
        → find_entry kind name l.entries ≡ some e
        → all (λ f. elem f e.descriptor.features) required ≡ true
        → e.provider ≡ p
        → Provided p (l ∷ parents)
    above :
        {l : Layer P} {parents : List (Layer P)}
        → l.closed ≡ false
        → is_allowed l.allowed kind name ≡ true
        → find_entry kind name l.entries ≡ none
        → Provided p parents
        → Provided p (l ∷ parents)

  resolve-Provided :
      (p : P) (ls : List (Layer P)) → resolve kind name required ls ≡ returned p → Provided p ls
  unfolding resolve provide
  resolve-Provided p [] h = absurd (ground arith)
  resolve-Provided p (l ∷ ls) h = elim (Bool-cases l.closed) [
    | inl closed ↦ absurd (ground arith)
    | inr live ↦ elim (Bool-cases (is_allowed l.allowed kind name)) [
      | inl fits ↦ elim (Option-cases (find_entry kind name l.entries)) [
        | inl absent ↦ above live fits absent (resolve-Provided p ls (ground arith))
        | inr (e, found) ↦ elim (Bool-cases (all (λ f. elem f e.descriptor.features) required)) [
          | inl has ↦ own e live fits found has (ground arith)
          | inr lacks ↦ absurd (ground arith)
        ]
      ]
      | inr outside ↦ absurd (ground arith)
    ]
  ]

  Provided-resolve :
      (p : P) (ls : List (Layer P)) → Provided p ls → resolve kind name required ls ≡ returned p
  unfolding resolve provide
  Provided-resolve p [] found = elim found [ ]
  Provided-resolve p (l ∷ ls) (own e live fits found has same) = ground arith
  Provided-resolve p (l ∷ ls) (above live fits absent rest) =
      let found = Provided-resolve p ls rest in ground arith

-- the walk and what it returns
pub resolve_walk {ℓ} :
    {P : Type ℓ} (kind name : String) (required : List String) (p : P) (ls : List (Layer P))
    → (resolve kind name required ls ≡ returned p) ↔ Provided kind name required p ls
resolve_walk kind name required p ls =
    (resolve-Provided kind name required p ls, Provided-resolve kind name required p ls)
