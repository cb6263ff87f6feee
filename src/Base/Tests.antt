-- ===== src/Base/Tests.antt =====
-- Boolean tests on numbers and texts, the conditional, and the cases of a computed value.
use Prim.Native.Nat.{ℕ, compare, Ordering}
use Prim.Native.String.{String}
use text.Mathlib.Text.{◌==◌ as text_eq}
use text.Mathlib.TextEquality.{eq_iff}
use mathlib.Core.Path.{◌≡◌, refl}
use mathlib.Core.Logic.{◌↔◌, ◌⊎◌, ◌≢◌, inl, inr}
use mathlib.Core.Bool.{Bool, true, false}
use mathlib.Core.Option.{Option, none, some}
use native.Mathlib.Omega.{arith}

abbrev pub ltb : ℕ → ℕ → Bool
ltb a b = elim (compare a b) [ Ordering.lt ↦ true | _ ↦ false ]

abbrev pub leb : ℕ → ℕ → Bool
leb a b = elim (compare a b) [ Ordering.gt ↦ false | _ ↦ true ]

infix 50 ◌==◌
abbrev pub ◌==◌ : ℕ → ℕ → Bool
a == b = elim (compare a b) [ Ordering.eq ↦ true | _ ↦ false ]

infix 1 if◌then◌else◌
abbrev pub if◌then◌else◌ {ℓ} : {A : Type ℓ} → Bool → A → A → A
if true then x else y = x
if false then x else y = y

-- `MIN (a, b)`.
abbrev pub smaller : ℕ → ℕ → ℕ
smaller a b = if ltb a b then a else b

pub Bool-cases : (b : Bool) → (b ≡ true) ⊎ (b ≡ false)
Bool-cases true = inl refl
Bool-cases false = inr refl

pub Option-cases {ℓ} : {A : Type ℓ} (o : Option A) → (o ≡ none) ⊎ ((a : A) × (o ≡ some a))
Option-cases none = inl refl
Option-cases (some a) = inr (a, refl)

-- `g_strcmp0 (a, b) == 0` on pointers that may be NULL: NULL equals NULL only.
unfoldable pub str_eq : Option String → Option String → Bool
str_eq none none = true
str_eq none (some b) = false
str_eq (some a) none = false
str_eq (some a) (some b) = text_eq a b

pub str_eq_iff : (a b : Option String) → (str_eq a b ≡ true) ↔ (a ≡ b)
unfolding str_eq
str_eq_iff none none = ground arith
str_eq_iff none (some b) = ground arith
str_eq_iff (some a) none = ground arith
str_eq_iff (some a) (some b) = ground (arith, eq_iff a b)

pub str_eq_self : (a : Option String) → str_eq a a ≡ true
str_eq_self a = (str_eq_iff a a).1 refl

pub str_eq→eq : (a b : Option String) → str_eq a b ≡ true → a ≡ b
str_eq→eq a b h = (str_eq_iff a b).0 h

pub ne→str_eq : (a b : Option String) → a ≢ b → str_eq a b ≡ false
ne→str_eq a b h = ground (arith, str_eq_iff a b)
