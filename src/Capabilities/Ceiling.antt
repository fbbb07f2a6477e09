-- ===== src/Capabilities/Ceiling.antt =====
-- The ceilings of the registries of src/aegisrun/harness/capabilities.py only narrow.
use equi_seek.Prelude.{
  String, eq_iff, ◌≡◌, refl, true, ◌&&◌, none, some, List, [], ◌∷◌, elem, arith, inl, inr,
  Bool-cases, Option-cases, subst,
}
use equi_seek.Dict.{Dict, lookup, lookup-update_all}
use equi_seek.Capabilities.Registry.{
  CapabilityDescriptor, Layer, returned, Ceiling, is_allowed, names_of, intersect, narrow,
  new_layer, register, add_entry, find_entry, child, is_found, resolve,
}
use equi_seek.Capabilities.Resolve.{Provided, own, above, resolve_walk}

elem-intersect :
    (x : String) (xs ys : List String) → elem x (intersect xs ys) ≡ (elem x xs && elem x ys)
unfolding elem intersect
elem-intersect x [] ys = refl
elem-intersect x (z ∷ xs) ys = ground (arith, elem-intersect x xs ys, eq_iff z x)

-- what the ceiling of a child allows, its parent's allows
narrow_lem :
    (c : Ceiling) (allowed : Dict (List String)) (kind name : String)
    → is_allowed (some (narrow c allowed)) kind name ≡ true
    → is_allowed c kind name ≡ true
unfolding narrow elem
narrow_lem none allowed kind name h = refl
narrow_lem (some ceiling) allowed kind name h = elim (Option-cases (lookup kind allowed)) [
  | inl absent ↦ absurd (
      ground (
        arith,
        lookup-update_all kind (λ k names. intersect names (names_of (lookup k ceiling))) allowed,
      ))
  | inr (names, found) ↦ ground (
    arith,
    lookup-update_all kind (λ k ns. intersect ns (names_of (lookup k ceiling))) allowed,
    elem-intersect name names (names_of (lookup kind ceiling)),
  )
]

module _ {ℓ} {P : Type ℓ} where
  -- every registry of the list allows the name
  abbrev pub Permits : String → String → List (Layer P) → Type 0
  Permits kind name [] = Unit {0}
  Permits kind name (l ∷ ls) = (is_allowed l.allowed kind name ≡ true) × Permits kind name ls

  -- what a registry allows, all above it allow
  abbrev pub IsNarrowing : List (Layer P) → Type 0
  IsNarrowing [] = Unit {0}
  IsNarrowing (l ∷ ls) =
      ((kind name : String) → is_allowed l.allowed kind name ≡ true → Permits kind name ls)
      × IsNarrowing ls

  -- one registry of the list has a new registration
  pub data Registers : List (Layer P) → List (Layer P) → Type ℓ where
    first :
        {l l' : Layer P} {ls : List (Layer P)} (d : CapabilityDescriptor) (p : P)
        → register d p l ≡ returned l'
        → Registers (l ∷ ls) (l' ∷ ls)
    later :
        {l : Layer P} {ls ls' : List (Layer P)} → Registers ls ls' → Registers (l ∷ ls) (l ∷ ls')

  -- the registries that the methods build, each with those above it
  pub data Built : List (Layer P) → Type ℓ where
    root : (c : Ceiling) → Built (new_layer c ∷ [])
    registered : {ls ls' : List (Layer P)} → Built ls → Registers ls ls' → Built ls'
    nested :
        {l : Layer P} {ls ls' : List (Layer P)} (allowed : Dict (List String))
        → Built (l ∷ ls)
        → child allowed l ls ≡ returned ls'
        → Built ls'

  same_ceiling :
      (d : CapabilityDescriptor) (p : P) (l l' : Layer P)
      → register d p l ≡ returned l'
      → l'.allowed ≡ l.allowed
  unfolding register add_entry
  same_ceiling d p l l' h = elim (Bool-cases l.closed) [
    | inl closed ↦ absurd (ground arith)
    | inr live ↦ elim (Bool-cases (is_allowed l.allowed d.kind d.name)) [
      | inl fits ↦ elim (Bool-cases (is_found (find_entry d.kind d.name l.entries))) [
        | inl there ↦ absurd (ground arith)
        | inr fresh ↦
            let same : add_entry l d p ≡ l' = ground arith in
            subst (λ (x : Layer P). x.allowed ≡ l.allowed) same refl
      ]
      | inr outside ↦ absurd (ground arith)
    ]
  ]

  Registers-Permits :
      {ls ls' : List (Layer P)}
      → Registers ls ls'
      → (kind name : String) → Permits kind name ls
      → Permits kind name ls'
  Registers-Permits (first {l = l} {l' = l'} {ls = ls} d p h) kind name (a, b) =
      (rw (same_ceiling d p l l' h) a, b)
  Registers-Permits (later r) kind name (a, b) = (a, Registers-Permits r kind name b)

  Registers-IsNarrowing :
      {ls ls' : List (Layer P)} → Registers ls ls' → IsNarrowing ls → IsNarrowing ls'
  Registers-IsNarrowing (first {l = l} {l' = l'} {ls = ls} d p h) (a, b) = (
    λ kind name i.
        a kind name (subst (λ c. is_allowed c kind name ≡ true) (same_ceiling d p l l' h) i),
    b,
  )
  Registers-IsNarrowing (later r) (a, b) =
      (λ kind name i. Registers-Permits r kind name (a kind name i), Registers-IsNarrowing r b)

  Built-IsNarrowing : {ls : List (Layer P)} → Built ls → IsNarrowing ls
  unfolding child
  Built-IsNarrowing (root c) = (λ kind name i. tt, tt)
  Built-IsNarrowing (registered b r) = Registers-IsNarrowing r (Built-IsNarrowing b)
  Built-IsNarrowing (nested {l = l} {ls = ls} {ls' = ls'} allowed b h) =
      let (a, rest) = Built-IsNarrowing b in
      elim (Bool-cases l.closed) [
        | inl closed ↦ absurd (ground arith)
        | inr live ↦
            let same : new_layer (some (narrow l.allowed allowed)) ∷ l ∷ ls ≡ ls' = ground arith in
            subst IsNarrowing same (
              λ kind name i.
                  let up = narrow_lem l.allowed allowed kind name i in (up, a kind name up),
              (a, rest),
            )
      ]

  Provided-Permits :
      (kind name : String) (required : List String) (p : P) (ls : List (Layer P))
      → IsNarrowing ls
      → Provided kind name required p ls
      → Permits kind name ls
  Provided-Permits kind name required p [] h found = tt
  Provided-Permits kind name required p (l ∷ ls) (h, rest) (own e live fits entry has same) =
      (fits, h kind name fits)
  Provided-Permits kind name required p (l ∷ ls) (h, rest) (above live fits absent found) =
      (fits, h kind name fits)

  -- A registry resolves only what its own ceiling and the ceilings of all registries above it allow,
  -- whatever the children narrow and whoever registers what.
  pub resolve-Permits :
      {ls : List (Layer P)}
      → Built ls
      → (kind name : String) (required : List String) (p : P)
      → resolve kind name required ls ≡ returned p
      → Permits kind name ls
  resolve-Permits {ls = ls} built kind name required p h =
      Provided-Permits kind name required p ls (Built-IsNarrowing built)
        ((resolve_walk kind name required p ls).0 h)
