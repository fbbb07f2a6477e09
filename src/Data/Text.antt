-- ===== src/Data/Text.antt =====
-- `str.strip` and the emptiness tests on its result.
use Prim.Native.Char.{code}
use equi_seek.Prelude.{
  ℕ, ◌+◌, ◌-◌, String, ◌==◌, Bool, true, false, Option, none, some, ◌&&◌, ◌||◌, leb, nat_eq,
  if◌then◌else◌,
}

-- the code points for which `str.isspace` holds
unfoldable pub is_space : ℕ → Bool
is_space c =
    (leb 9 c && leb c 13)
    || (leb 28 c && leb c 32)
    || nat_eq c 133
    || nat_eq c 160
    || nat_eq c 5760
    || (leb 8192 c && leb c 8202)
    || nat_eq c 8232
    || nat_eq c 8233
    || nat_eq c 8239
    || nat_eq c 8287
    || nat_eq c 12288

unfoldable pub lstrip : String → String
unfolding is_space
lstrip String.[] = String.[]
lstrip (String.◌∷◌ c s) = let rest = lstrip s in if is_space (code c) then rest else String.◌∷◌ c s

unfoldable pub rstrip : String → String
unfolding is_space
rstrip String.[] = String.[]
rstrip (String.◌∷◌ c s) =
    let rest = rstrip s in if is_space (code c) && rest == "" then "" else String.◌∷◌ c rest

unfoldable pub strip : String → String
unfolding lstrip rstrip
strip s = rstrip (lstrip s)

-- `len(s)`
unfoldable pub text_length : String → ℕ
text_length String.[] = 0
text_length (String.◌∷◌ c s) = 1 + text_length s

-- `s.startswith(p)`
unfoldable pub starts_with : (s p : String) → Bool
starts_with s String.[] = true
starts_with String.[] (String.◌∷◌ d p) = false
starts_with (String.◌∷◌ c s) (String.◌∷◌ d p) = nat_eq (code c) (code d) && starts_with s p

-- `p in s`
unfoldable pub has_text : (s p : String) → Bool
unfolding starts_with
has_text String.[] p = starts_with String.[] p
has_text (String.◌∷◌ c s) p = starts_with (String.◌∷◌ c s) p || has_text s p

-- `s[:n]`
unfoldable pub prefix : ℕ → String → String
prefix n String.[] = ""
prefix n (String.◌∷◌ c s) =
    let rest = prefix (n - 1) s in if nat_eq n 0 then "" else String.◌∷◌ c rest

-- `s.endswith(p)`
unfoldable pub ends_with : (s p : String) → Bool
ends_with String.[] p = p == ""
ends_with (String.◌∷◌ c s) p = String.◌∷◌ c s == p || ends_with s p

-- `s.split(".", 1)`, if there is a dot
unfoldable pub split_dot : String → Option (String × String)
split_dot String.[] = none
split_dot (String.◌∷◌ c s) =
    let rest = split_dot s in
    if nat_eq (code c) 46
    then some ("", s)
    else elim rest [ none ↦ none | some (a, b) ↦ some (String.◌∷◌ c a, b) ]

-- the characters whose code passes the test
unfoldable pub keep : (ℕ → Bool) → String → String
keep p String.[] = ""
keep p (String.◌∷◌ c s) = let rest = keep p s in if p (code c) then String.◌∷◌ c rest else rest
