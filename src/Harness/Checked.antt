-- ===== src/Harness/Checked.antt =====
-- Checks that raise `InvariantError(owner, message)` of src/aegisrun/harness/invariants.py.
use equi_seek.Prelude.{String, ◌≡◌, refl, Bool, true, false, ◌⊎◌, inl, inr, subst}

pub data Checked {ℓ} (A : Type ℓ) : Type ℓ where
  ok : A → Checked A
  violated : (owner message : String) → Checked A

infixl 5 ◌>>=◌
unfoldable pub ◌>>=◌ {ℓ κ} : {A : Type ℓ} {B : Type κ} → Checked A → (A → Checked B) → Checked B
ok a >>= f = f a
violated o m >>= f = violated o m

-- raises where the condition fails
unfoldable pub demand {ℓ} : {A : Type ℓ} → Bool → (owner message : String) → Checked A → Checked A
demand true o m x = x
demand false o m x = violated o m

-- what the check returns, if it returns, has the property
abbrev pub Holds {ℓ κ} : {A : Type ℓ} → (A → Type κ) → Checked A → Type κ
Holds P (ok a) = P a
Holds P (violated o m) = Unit

pub bind-Holds {ℓ κ μ} :
    {A : Type ℓ} {B : Type κ} (P : B → Type μ) (x : Checked A) (f : A → Checked B)
    → ((a : A) → x ≡ ok a → Holds P (f a))
    → Holds P (x >>= f)
unfolding ◌>>=◌
bind-Holds P (ok a) f h = h a refl
bind-Holds P (violated o m) f h = tt

pub demand-Holds {ℓ κ} :
    {A : Type ℓ} (P : A → Type κ) (b : Bool) (o m : String) (x : Checked A)
    → (b ≡ true → Holds P x)
    → Holds P (demand b o m x)
unfolding demand
demand-Holds P true o m x h = h refl
demand-Holds P false o m x h = tt

pub Checked-cases {ℓ} :
    {A : Type ℓ} (x : Checked A)
    → ((a : A) × (x ≡ ok a)) ⊎ ((o : String) × (m : String) × (x ≡ violated o m))
Checked-cases (ok a) = inl (a, refl)
Checked-cases (violated o m) = inr (o, m, refl)

-- what is known of what a check returns, where it returned
pub Holds-ok {ℓ κ} :
    {A : Type ℓ} (P : A → Type κ) (x : Checked A) (a : A) → x ≡ ok a → Holds P x → P a
Holds-ok P x a e h = subst (Holds P) e h

pub ok-injective {ℓ} : {A : Type ℓ} (a b : A) → ok a ≡ ok b → a ≡ b
ok-injective a b h = cc
