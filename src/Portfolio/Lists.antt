-- ===== src/Portfolio/Lists.antt =====
-- What the checks on single fields in src/aegisrun/portfolio/strategy_dsl.py give.
use equi_seek.Prelude.{
  ℕ, ◌+◌, ◌≤◌, String, ◌==◌, eq_iff, ◌≡◌, refl, Bool, true, false, not, ◌&&◌, ◌||◌, List, [], ◌∷◌,
  ◌++◌, elem, all, is_distinct, length, length-append, leb, arith, inl, inr, Bool-cases, subst,
}
use equi_seek.Data.Json.{Value, Items}
use equi_seek.Data.Text.{strip, text_length}
use equi_seek.Portfolio.Fields.{
  Checked, ok, invalid, crashed, ◌>>=◌, demand, append_new, strings_from, string_list, item_count,
  bounded_int,
}
use equi_seek.Portfolio.Strategy.{is_some_of}

abbrev pub Holds : {A : Type 0} → (A → Type 0) → Checked A → Type 0
Holds P (ok a) = P a
Holds P _ = Unit {0}

pub bind-Holds :
    {A B : Type 0} (P : B → Type 0) (x : Checked A) (f : A → Checked B)
    → ((a : A) → x ≡ ok a → Holds P (f a))
    → Holds P (x >>= f)
unfolding ◌>>=◌
bind-Holds P (ok a) f h = h a refl
bind-Holds P (invalid field) f h = tt
bind-Holds P (crashed error) f h = tt

pub demand-Holds :
    {A : Type 0} (P : A → Type 0) (b : Bool) (field : String) (x : Checked A)
    → (b ≡ true → Holds P x)
    → Holds P (demand b field x)
unfolding demand
demand-Holds P true field x h = h refl
demand-Holds P false field x h = tt

-- distinct texts, a hundred at most
pub record IsTextList (xs : List String) : Type 0 where
  pub distinct : is_distinct xs ≡ true
  pub bounded : length xs ≤ 100

elem-append : (x : String) (xs ys : List String) → elem x (xs ++ ys) ≡ (elem x xs || elem x ys)
unfolding elem
elem-append x [] ys = refl
elem-append x (z ∷ xs) ys = ground (arith, elem-append x xs ys)

is_distinct-append_new :
    (t : String) (xs : List String) → is_distinct xs ≡ true → is_distinct (append_new t xs) ≡ true
unfolding is_distinct elem
is_distinct-append_new t xs h = elim (Bool-cases (elem t xs)) [
  | inl old ↦ rw old h
  | inr new ↦ rw new (grow xs h new)
]
  where
    grow :
        (ys : List String)
        → is_distinct ys ≡ true
        → elem t ys ≡ false
        → is_distinct (ys ++ t ∷ []) ≡ true
    grow [] d n = refl
    grow (y ∷ ys) d n = ground (arith, elem-append y ys (t ∷ []), eq_iff t y, eq_iff y t, grow ys)

length-append_new : (t : String) (xs : List String) → length (append_new t xs) ≤ length xs + 1
length-append_new t xs = elim (Bool-cases (elem t xs)) [
  | inl old ↦ rw old (omega arith)
  | inr new ↦ rw new (omega (arith, length-append {0} xs (t ∷ [])))
]

strings_from-IsTextList :
    (items : Items) (name : String) (normalized : List String)
    → is_distinct normalized ≡ true
    → length normalized + item_count items ≤ 100
    → Holds IsTextList (strings_from items name normalized)
unfolding strings_from item_count
strings_from-IsTextList Items.nil name xs d l = record { distinct = d; bounded = omega (arith, l) }
strings_from-IsTextList (Items.cons (Value.str s) items) name xs d l =
    demand-Holds IsTextList (not (strip s == "") && leb (text_length s) 80) name
      (strings_from items name (append_new (strip s) xs))
      (λ good.
        strings_from-IsTextList items name (append_new (strip s) xs)
          (is_distinct-append_new (strip s) xs d)
          (omega (arith, l, length-append_new (strip s) xs)))
strings_from-IsTextList (Items.cons v items) name xs d l = tt

pub string_list-IsTextList : (v : Value) (name : String) → Holds IsTextList (string_list v name)
unfolding string_list is_distinct
string_list-IsTextList (Value.arr items) name =
    demand-Holds IsTextList (leb (item_count items) 100) name (strings_from items name [])
      (λ small. strings_from-IsTextList items name [] refl (ground arith))
string_list-IsTextList v name = tt

-- the values that `bounded_int` returns
abbrev pub Between : ℕ → ℕ → ℕ → Type 0
Between minimum maximum n = (minimum ≤ n) × (n ≤ maximum)

pub bounded_int-Between :
    (v : Value) (name : String) (minimum maximum : ℕ)
    → Holds (Between minimum maximum) (bounded_int v name minimum maximum)
unfolding bounded_int
bounded_int-Between (Value.int negative n) name minimum maximum =
    demand-Holds (Between minimum maximum)
      ((not negative || leb n 0) && leb minimum n && leb n maximum) name (ok n)
      (λ good. (ground arith, ground arith))
bounded_int-Between v name minimum maximum = tt

-- what holds of a value that a check returned
pub returned : {A : Type 0} (P : A → Type 0) (x : Checked A) (a : A) → x ≡ ok a → Holds P x → P a
returned P x a e h = subst (Holds P) e h

-- all are among the given ones, and there is one
pub record IsSomeOf (xs allowed : List String) : Type 0 where
  pub listed : (x : String) → elem x xs ≡ true → elem x allowed ≡ true
  pub nonempty : 1 ≤ length xs

all_listed :
    (xs allowed : List String) (x : String)
    → all (λ t. elem t allowed) xs ≡ true
    → elem x xs ≡ true
    → elem x allowed ≡ true
unfolding all elem
all_listed [] allowed x h m = absurd (ground arith)
all_listed (y ∷ ys) allowed x h m = ground (arith, eq_iff y x, all_listed ys allowed x)

pub is_some_of_lem : (xs allowed : List String) → is_some_of xs allowed ≡ true → IsSomeOf xs allowed
is_some_of_lem [] allowed h = cc
is_some_of_lem (x ∷ xs) allowed h = record {
  listed = λ y m. all_listed (x ∷ xs) allowed y h m;
  nonempty = omega arith;
}
