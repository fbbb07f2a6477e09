-- ===== src/Dict.antt =====
-- Python's `dict` with string keys, in insertion order, as an association list.
-- A key stands once in it: `insert` writes in place, and appends a new key at the end.
use mathlib.Core.Option
use equi_seek.Prelude.{
  String, ◌==◌, eq_iff, ◌≡◌, refl, Bool, true, false, ◌||◌, Option, none, some, List, [], ◌∷◌,
  arith, elem, is_distinct, if◌then◌else◌, Bool-cases, inl, inr,
}

abbrev pub Dict {ℓ} : Type ℓ → Type ℓ
Dict V = List (String × V)

module _ {ℓ} {V : Type ℓ} where
  -- `d.get(k)`
  unfoldable pub lookup : String → Dict V → Option V
  lookup k [] = none
  lookup k ((j, v) ∷ m) = if j == k then some v else lookup k m

  -- `del d[k]`
  unfoldable pub erase : String → Dict V → Dict V
  erase k [] = []
  erase k ((j, v) ∷ m) = let rest = erase k m in if j == k then rest else (j, v) ∷ rest

  -- `d[k] = v`
  unfoldable pub insert : String → V → Dict V → Dict V
  insert k v [] = (k, v) ∷ []
  insert k v ((j, w) ∷ m) = if j == k then (j, v) ∷ m else (j, w) ∷ insert k v m

  -- an object of the dict is changed through a reference to it
  unfoldable pub adjust : String → (V → V) → Dict V → Dict V
  adjust k f [] = []
  adjust k f ((j, v) ∷ m) = if j == k then (j, f v) ∷ m else (j, v) ∷ adjust k f m

  -- a loop over `d.items()` that changes each object
  unfoldable pub update_all : (String → V → V) → Dict V → Dict V
  update_all f [] = []
  update_all f ((j, v) ∷ m) = (j, f j v) ∷ update_all f m

  -- the keys, in order
  unfoldable pub keys : Dict V → List String
  keys [] = []
  keys ((j, v) ∷ m) = j ∷ keys m

  -- `any(p(v) for v in d.values())`
  unfoldable pub any_value : (V → Bool) → Dict V → Bool
  any_value p [] = false
  any_value p ((j, v) ∷ m) = p v || any_value p m

  pub lookup-erase :
      (k j : String) (m : Dict V) → lookup j (erase k m) ≡ (if k == j then none else lookup j m)
  unfolding lookup erase
  lookup-erase k j [] = ground arith
  lookup-erase k j ((i, w) ∷ m) =
      ground (arith, eq_iff k j, eq_iff i k, eq_iff i j, lookup-erase k j m)

  pub lookup-insert :
      (key other : String) (value : V) (d : Dict V)
      → lookup other (insert key value d) ≡ (if key == other then some value else lookup other d)
  unfolding lookup insert
  lookup-insert key other value [] = refl
  lookup-insert key other value ((i, old) ∷ d) =
      ground
        (arith, lookup-insert key other value d, eq_iff i other, eq_iff i key, eq_iff key other)

  pub lookup-adjust :
      (k j : String) (f : V → V) (m : Dict V)
      → lookup j (adjust k f m) ≡ (if k == j then Option.map f (lookup j m) else lookup j m)
  unfolding lookup adjust
  lookup-adjust k j f [] = ground arith
  lookup-adjust k j f ((i, w) ∷ m) =
      ground (arith, eq_iff k j, eq_iff i k, eq_iff i j, lookup-adjust k j f m)

  pub lookup-update_all :
      (j : String) (f : String → V → V) (m : Dict V)
      → lookup j (update_all f m) ≡ Option.map (f j) (lookup j m)
  unfolding lookup update_all
  lookup-update_all j f [] = refl
  lookup-update_all j f ((i, w) ∷ m) = ground (arith, eq_iff i j, lookup-update_all j f m)

  pub keys-adjust : (k : String) (f : V → V) (m : Dict V) → keys (adjust k f m) ≡ keys m
  unfolding keys adjust
  keys-adjust k f [] = refl
  keys-adjust k f ((i, w) ∷ m) = ground (arith, keys-adjust k f m)

  pub keys-update_all : (f : String → V → V) (m : Dict V) → keys (update_all f m) ≡ keys m
  unfolding keys update_all
  keys-update_all f [] = refl
  keys-update_all f ((i, w) ∷ m) = ground (arith, keys-update_all f m)

  -- a key of the dict is one that `lookup` finds
  pub lookup-of_elem :
      (k : String) (m : Dict V) → elem k (keys m) ≡ true → (v : V) × (lookup k m ≡ some v)
  unfolding lookup keys elem
  lookup-of_elem k [] h = cc
  lookup-of_elem k ((i, w) ∷ m) h = elim (Bool-cases (i == k)) [
    | inl e ↦ (w, rw e)
    | inr e ↦ rw e (lookup-of_elem k m (ground arith))
  ]

  pub elem-of_lookup :
      (k : String) (m : Dict V) (v : V) → lookup k m ≡ some v → elem k (keys m) ≡ true
  unfolding lookup keys elem
  elem-of_lookup k [] v h = cc
  elem-of_lookup k ((i, w) ∷ m) v h = ground (arith, elem-of_lookup k m v)

  pub any_value-of_lookup :
      (p : V → Bool) (k : String) (m : Dict V) (v : V)
      → lookup k m ≡ some v
      → p v ≡ true
      → any_value p m ≡ true
  unfolding lookup any_value
  any_value-of_lookup p k [] v h t = cc
  any_value-of_lookup p k ((i, w) ∷ m) v h t = ground (arith, any_value-of_lookup p k m v)

  pub elem-keys-insert :
      (k j : String) (v : V) (m : Dict V)
      → elem j (keys (insert k v m)) ≡ ((k == j) || elem j (keys m))
  unfolding keys elem insert
  elem-keys-insert k j v [] = ground arith
  elem-keys-insert k j v ((i, w) ∷ m) =
      ground (arith, eq_iff i k, eq_iff i j, eq_iff k j, elem-keys-insert k j v m)

  pub is_distinct-insert :
      (k : String) (v : V) (m : Dict V)
      → is_distinct (keys m) ≡ true
      → is_distinct (keys (insert k v m)) ≡ true
  unfolding keys elem insert is_distinct
  is_distinct-insert k v [] u = refl
  is_distinct-insert k v ((i, w) ∷ m) u =
      ground (arith, eq_iff i k, eq_iff k i, elem-keys-insert k i v m, is_distinct-insert k v m)

  pub elem-keys-erase :
      (k j : String) (m : Dict V)
      → elem j (keys (erase k m)) ≡ (if k == j then false else elem j (keys m))
  unfolding keys elem erase
  elem-keys-erase k j [] = ground arith
  elem-keys-erase k j ((i, w) ∷ m) =
      ground (arith, eq_iff i k, eq_iff i j, eq_iff k j, elem-keys-erase k j m)

  pub is_distinct-erase :
      (k : String) (m : Dict V)
      → is_distinct (keys m) ≡ true
      → is_distinct (keys (erase k m)) ≡ true
  unfolding keys erase is_distinct
  is_distinct-erase k [] u = refl
  is_distinct-erase k ((i, w) ∷ m) u = ground (arith, elem-keys-erase k i m, is_distinct-erase k m)
