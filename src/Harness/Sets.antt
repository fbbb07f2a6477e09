-- ===== src/Harness/Sets.antt =====
-- Python's `set` of texts as a list, with the facts that the invariant checks need.
use equi_seek.Prelude.{
  String, ◌==◌, eq_iff, ◌≡◌, true, false, not, ◌&&◌, ◌||◌, List, [], ◌∷◌, elem, arith,
  if◌then◌else◌, some,
}
use equi_seek.Dict.{
  Dict, lookup, insert, erase, any_value, lookup-insert, lookup-erase, any_value-of_lookup,
}

-- `s.add(x)`
unfoldable pub add : String → List String → List String
add x xs = if elem x xs then xs else x ∷ xs

-- `s.remove(x)`
unfoldable pub remove : String → List String → List String
remove x [] = []
remove x (y ∷ ys) = let rest = remove x ys in if y == x then rest else y ∷ rest

pub elem-add : (x y : String) (xs : List String) → elem y (add x xs) ≡ ((x == y) || elem y xs)
unfolding add elem
elem-add x y xs = ground (arith, eq_iff x y)

pub elem-remove :
    (x y : String) (xs : List String) → elem y (remove x xs) ≡ (not (x == y) && elem y xs)
unfolding remove elem
elem-remove x y [] = ground arith
elem-remove x y (z ∷ xs) = ground (arith, eq_iff z x, eq_iff z y, eq_iff x y, elem-remove x y xs)

-- no element in common
abbrev pub Apart : List String → List String → Type 0
Apart xs ys = (c : String) → elem c xs ≡ true → elem c ys ≡ false

abbrev pub Within : List String → List String → Type 0
Within xs ys = (c : String) → elem c xs ≡ true → elem c ys ≡ true

-- each value of the dictionary is in the set
abbrev pub Owned : Dict String → List String → Type 0
Owned d xs = (k v : String) → lookup k d ≡ some v → elem v xs ≡ true

-- each key of the dictionary is in the set
abbrev pub Keyed : Dict String → List String → Type 0
Keyed d xs = (k v : String) → lookup k d ≡ some v → elem k xs ≡ true

module _ (x : String) (xs ys : List String) where
  pub Apart-add_left : elem x ys ≡ false → Apart xs ys → Apart (add x xs) ys
  Apart-add_left n h c m = ground (arith, elem-add x c xs, eq_iff x c, h c)

  pub Apart-add_right : elem x xs ≡ false → Apart xs ys → Apart xs (add x ys)
  Apart-add_right n h c m = ground (arith, elem-add x c ys, eq_iff x c, h c)

  pub Apart-move : Apart xs ys → Apart (remove x xs) (add x ys)
  Apart-move h c m = ground (arith, elem-add x c ys, elem-remove x c xs, eq_iff x c, h c)

  pub Apart-remove : Apart xs ys → Apart xs (remove x ys)
  Apart-remove h c m = ground (arith, elem-remove x c ys, h c)

  pub Within-add_right : Within xs ys → Within xs (add x ys)
  Within-add_right h c m = ground (arith, elem-add x c ys, h c)

  pub Within-add_left : elem x ys ≡ true → Within xs ys → Within (add x xs) ys
  Within-add_left i h c m = ground (arith, elem-add x c xs, eq_iff x c, h c)

module _ (x v : String) (d : Dict String) (xs : List String) where
  pub Owned-insert : elem v xs ≡ true → Owned d xs → Owned (insert x v d) xs
  Owned-insert i h k u e = ground (arith, lookup-insert x k v d, h k u)

  pub Owned-erase : Owned d xs → Owned (erase x d) xs
  Owned-erase h k u e = ground (arith, lookup-erase x k d, h k u)

  pub Owned-add : Owned d xs → Owned d (add v xs)
  Owned-add h k u e = ground (arith, elem-add v u xs, h k u)

  pub Owned-remove : any_value (λ u. v == u) d ≡ false → Owned d xs → Owned d (remove v xs)
  Owned-remove n h k u e =
      ground (arith, elem-remove v u xs, h k u, any_value-of_lookup (λ w. v == w) k d u e)

  pub Keyed-insert : elem x xs ≡ true → Keyed d xs → Keyed (insert x v d) xs
  Keyed-insert i h k u e = ground (arith, lookup-insert x k v d, eq_iff x k, h k u)

  pub Keyed-erase : Keyed d xs → Keyed (erase x d) xs
  Keyed-erase h k u e = ground (arith, lookup-erase x k d, h k u)

  pub Keyed-add : Keyed d xs → Keyed d (add v xs)
  Keyed-add h k u e = ground (arith, elem-add v k xs, h k u)
