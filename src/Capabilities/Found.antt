-- ===== src/Capabilities/Found.antt =====
-- What `resolve` of src/aegisrun/harness/capabilities.py finds.
use equi_seek.Prelude.{
  String, ◌==◌, eq_iff, eq_refl, ◌≡◌, refl, ap, Bool, true, false, ◌&&◌, none, some, List, [], ◌∷◌,
  elem, all, arith, ◌↔◌, ◌⊎◌, inl, inr, Bool-cases, Option-cases,
}
use equi_seek.Dict.{lookup}
use equi_seek.Capabilities.Registry.{
  Ceiling, Layer, Entry, returned, is_allowed, find_entry, resolve,
}
use equi_seek.Capabilities.Resolve.{Provided, own, above, resolve_walk}

-- there is no ceiling, or it lists the name under the kind
abbrev pub Allows : Ceiling → (kind name : String) → Type 0
Allows none kind name = Unit
Allows (some ceiling) kind name =
    (names : List String) × (lookup kind ceiling ≡ some names) × (elem name names ≡ true)

abbrev pub HasAll : (required features : List String) → Type 0
HasAll required features = (f : String) → elem f required ≡ true → elem f features ≡ true

is_allowed→Allows :
    (c : Ceiling) (kind name : String) → is_allowed c kind name ≡ true → Allows c kind name
unfolding elem
is_allowed→Allows none kind name h = tt
is_allowed→Allows (some ceiling) kind name h = elim (Option-cases (lookup kind ceiling)) [
  | inl absent ↦ absurd (ground arith)
  | inr (names, found) ↦ (names, found, ground arith)
]

Allows→is_allowed :
    (c : Ceiling) (kind name : String) → Allows c kind name → is_allowed c kind name ≡ true
Allows→is_allowed none kind name h = refl
Allows→is_allowed (some ceiling) kind name (names, found, inside) = rw found inside

all→HasAll :
    (required features : List String)
    → all (λ f. elem f features) required ≡ true
    → HasAll required features
unfolding all elem
all→HasAll [] features h f m = absurd (cc)
all→HasAll (g ∷ required) features h f m = elim (Bool-cases (g == f)) [
  | inl same ↦ ground (arith, eq_iff g f)
  | inr other ↦ all→HasAll required features (ground arith) f (ground arith)
]

HasAll→all :
    (required features : List String)
    → HasAll required features
    → all (λ f. elem f features) required ≡ true
unfolding all elem
HasAll→all [] features h = refl
HasAll→all (g ∷ required) features h = ground (
  arith,
  h g (ground (arith, eq_refl g)),
  HasAll→all required features (λ f m. h f (ground arith)),
)

module _ {P : Type 0} (kind name : String) where
  -- the entry is registered under the kind and the name
  abbrev pub IsOf : Entry P → Type 0
  IsOf e = (e.descriptor.kind ≡ kind) × (e.descriptor.name ≡ name)

  -- the first entry of the kind and the name
  abbrev pub FirstOf : Entry P → List (Entry P) → Type 0
  FirstOf e [] = ⊥
  FirstOf e (x ∷ es) = ((x ≡ e) × IsOf x) ⊎ ((¬ IsOf x) × FirstOf e es)

  abbrev pub NoneOf : List (Entry P) → Type 0
  NoneOf [] = Unit
  NoneOf (x ∷ es) = (¬ IsOf x) × NoneOf es

  abbrev is_of : Entry P → Bool
  is_of e = e.descriptor.kind == kind && e.descriptor.name == name

  is_of→IsOf : (e : Entry P) → is_of e ≡ true → IsOf e
  is_of→IsOf e h = (
    (eq_iff e.descriptor.kind kind).0 (ground arith),
    (eq_iff e.descriptor.name name).0 (ground arith),
  )

  not_IsOf : (e : Entry P) → is_of e ≡ false → ¬ IsOf e
  not_IsOf e h (a, b) = ground (arith, eq_iff e.descriptor.kind kind, eq_iff e.descriptor.name name)

  find_entry→FirstOf :
      (e : Entry P) (es : List (Entry P)) → find_entry kind name es ≡ some e → FirstOf e es
  unfolding find_entry
  find_entry→FirstOf e [] h = cc
  find_entry→FirstOf e (x ∷ es) h = elim (Bool-cases (is_of x)) [
    | inl here ↦ inl (ground arith, is_of→IsOf x here)
    | inr later ↦ inr (not_IsOf x later, find_entry→FirstOf e es (ground arith))
  ]

  find_entry→NoneOf : (es : List (Entry P)) → find_entry kind name es ≡ none → NoneOf es
  unfolding find_entry
  find_entry→NoneOf [] h = tt
  find_entry→NoneOf (x ∷ es) h = elim (Bool-cases (is_of x)) [
    | inl here ↦ absurd (ground arith)
    | inr later ↦ (not_IsOf x later, find_entry→NoneOf es (ground arith))
  ]

  IsOf→is_of : (e : Entry P) → IsOf e → is_of e ≡ true
  IsOf→is_of e (a, b) = ground (arith, eq_iff e.descriptor.kind kind, eq_iff e.descriptor.name name)

  FirstOf→find_entry :
      (e : Entry P) (es : List (Entry P)) → FirstOf e es → find_entry kind name es ≡ some e
  unfolding find_entry
  FirstOf→find_entry e (x ∷ es) (inl (same, here)) = rw (IsOf→is_of x here) (ap some same)
  FirstOf→find_entry e (x ∷ es) (inr (other, later)) = elim (Bool-cases (is_of x)) [
    | inl here ↦ absurd (other (is_of→IsOf x here))
    | inr b ↦ ground (arith, FirstOf→find_entry e es later)
  ]
  FirstOf→find_entry e [] h = absurd h

  NoneOf→find_entry : (es : List (Entry P)) → NoneOf es → find_entry kind name es ≡ none
  unfolding find_entry
  NoneOf→find_entry [] h = refl
  NoneOf→find_entry (x ∷ es) (other, rest) = elim (Bool-cases (is_of x)) [
    | inl here ↦ absurd (other (is_of→IsOf x here))
    | inr b ↦ ground (arith, NoneOf→find_entry es rest)
  ]

  module _ (required : List String) (p : P) where
    -- The first registry with an entry of the kind and the name has `p` there, with the features, and the
    -- registries up to it are open and allow the name.
    abbrev pub Provides : List (Layer P) → Type 0
    Provides [] = ⊥
    Provides (l ∷ ls) =
        (l.closed ≡ false)
        × Allows l.allowed kind name
        × (((e : Entry P) × FirstOf e l.entries
              × HasAll required e.descriptor.features
              × (e.provider ≡ p))
            ⊎ (NoneOf l.entries × Provides ls))

    Provided→Provides : (ls : List (Layer P)) → Provided kind name required p ls → Provides ls
    Provided→Provides [] w = elim w [ ]
    Provided→Provides (l ∷ ls) (own e live fits found has same) = (
      live,
      is_allowed→Allows l.allowed kind name fits,
      inl (
        e,
        find_entry→FirstOf e l.entries found,
        all→HasAll required e.descriptor.features has,
        same,
      ),
    )
    Provided→Provides (l ∷ ls) (above live fits absent rest) = (
      live,
      is_allowed→Allows l.allowed kind name fits,
      inr (find_entry→NoneOf l.entries absent, Provided→Provides ls rest),
    )

    Provides→Provided : (ls : List (Layer P)) → Provides ls → Provided kind name required p ls
    Provides→Provided [] w = absurd w
    Provides→Provided (l ∷ ls) (live, fits, inl (e, found, has, same)) =
        own e live (Allows→is_allowed l.allowed kind name fits)
          (FirstOf→find_entry e l.entries found) (HasAll→all required e.descriptor.features has)
          same
    Provides→Provided (l ∷ ls) (live, fits, inr (absent, rest)) =
        above live (Allows→is_allowed l.allowed kind name fits) (NoneOf→find_entry l.entries absent)
          (Provides→Provided ls rest)

-- `resolve` returns a provider exactly if it is that of the first entry with this kind and this name in
-- the first registry, from the own one upwards, that has such an entry, where that entry has every required
-- feature and all registries up to it are open and have no ceiling or one that lists the name.
pub resolve_iff :
    {P : Type 0} (kind name : String) (required : List String) (p : P) (ls : List (Layer P))
    → (resolve kind name required ls ≡ returned p) ↔ Provides kind name required p ls
resolve_iff kind name required p ls = (
  (λ h. Provided→Provides kind name required p ls ((resolve_walk kind name required p ls).0 h)),
  (λ w. (resolve_walk kind name required p ls).1 (Provides→Provided kind name required p ls w)),
)
