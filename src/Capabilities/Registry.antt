-- ===== src/Capabilities/Registry.antt =====
-- `CapabilityRegistry` of src/aegisrun/harness/capabilities.py. A registry is seen with its parent,
-- its parent's parent and so on, as the list of their fields, its own first.
use equi_seek.Prelude.{
  String, ◌==◌, Bool, true, false, not, ◌&&◌, Option, none, some, List, [], ◌∷◌, ◌++◌, elem, all,
  if◌then◌else◌,
}
use equi_seek.Dict.{Dict, lookup, update_all}

pub data TrustLevel : Type 0 where
  builtin : TrustLevel
  signed_user : TrustLevel
  untrusted : TrustLevel

pub record CapabilityDescriptor : Type 0 where
  pub kind : String
  pub name : String
  pub version : String
  pub features : List String
  pub trust : TrustLevel

pub data CapabilityError : Type 0 where
  registry_closed : CapabilityError
  outside_scope : (kind name : String) → CapabilityError
  duplicate : (kind name : String) → CapabilityError
  unknown : (kind name : String) → CapabilityError
  lacks_features : (kind name : String) → CapabilityError

pub data Result {ℓ} (A : Type ℓ) : Type ℓ where
  returned : A → Result A
  failed : CapabilityError → Result A

-- sets of names by kind; `none` where there is no ceiling
abbrev pub Ceiling : Type 0
Ceiling = Option (Dict (List String))

-- `ceiling.get(kind, frozenset())`
abbrev pub names_of : Option (List String) → List String
names_of none = []
names_of (some names) = names

-- `_is_allowed`
abbrev pub is_allowed : Ceiling → (kind name : String) → Bool
is_allowed none kind name = true
is_allowed (some ceiling) kind name = elem name (names_of (lookup kind ceiling))

-- `xs & ys`
unfoldable pub intersect : List String → List String → List String
intersect [] ys = []
intersect (x ∷ xs) ys = let rest = intersect xs ys in if elem x ys then x ∷ rest else rest

-- the ceiling of a child, from that of its parent
unfoldable pub narrow : Ceiling → Dict (List String) → Dict (List String)
narrow none allowed = allowed
narrow (some ceiling) allowed =
    update_all (λ kind names. intersect names (names_of (lookup kind ceiling))) allowed

module _ {ℓ} (P : Type ℓ) where
  pub record Entry : Type ℓ where
    pub descriptor : CapabilityDescriptor
    pub provider : P

  pub record Layer : Type ℓ where
    pub allowed : Ceiling
    pub entries : List Entry
    pub closed : Bool

module _ {ℓ} {P : Type ℓ} where
  -- `CapabilityRegistry(allowed=...)`
  abbrev pub new_layer : Ceiling → Layer P
  new_layer ceiling = record { allowed = ceiling; entries = []; closed = false }

  abbrev is_named : String → String → Entry P → Bool
  is_named kind name e = e.descriptor.kind == kind && e.descriptor.name == name

  -- `_entries.get((kind, name))`
  unfoldable pub find_entry : String → String → List (Entry P) → Option (Entry P)
  find_entry kind name [] = none
  find_entry kind name (e ∷ es) = if is_named kind name e then some e else find_entry kind name es

  abbrev pub is_found : Option (Entry P) → Bool
  is_found none = false
  is_found (some e) = true

  unfoldable pub add_entry : Layer P → CapabilityDescriptor → P → Layer P
  add_entry l d p = record l { entries = l.entries ++ record { descriptor = d; provider = p } ∷ [] }

  unfoldable pub register : CapabilityDescriptor → P → Layer P → Result (Layer P)
  register d p l =
      if l.closed
      then failed CapabilityError.registry_closed
      else if not (is_allowed l.allowed d.kind d.name)
      then failed (CapabilityError.outside_scope d.kind d.name)
      else if is_found (find_entry d.kind d.name l.entries)
      then failed (CapabilityError.duplicate d.kind d.name)
      else returned (add_entry l d p)

  -- the features of the entry that was found, against the required ones
  unfoldable pub provide : String → String → List String → Entry P → Result P
  provide kind name required e =
      if all (λ f. elem f e.descriptor.features) required
      then returned e.provider
      else failed (CapabilityError.lacks_features kind name)

  unfoldable pub resolve : String → String → List String → List (Layer P) → Result P
  resolve kind name required [] = failed (CapabilityError.unknown kind name)
  resolve kind name required (l ∷ parents) =
      let above = resolve kind name required parents in
      if l.closed
      then failed CapabilityError.registry_closed
      else if not (is_allowed l.allowed kind name)
      then failed (CapabilityError.outside_scope kind name)
      else elim (find_entry kind name l.entries) [
        | none ↦ above
        | some e ↦ provide kind name required e
      ]

  unfoldable pub child : Dict (List String) → Layer P → List (Layer P) → Result (List (Layer P))
  child allowed l parents =
      if l.closed
      then failed CapabilityError.registry_closed
      else returned (new_layer (some (narrow l.allowed allowed)) ∷ l ∷ parents)
