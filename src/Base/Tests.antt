-- ===== src/Base/Tests.antt =====
-- Boolean tests on the native numbers and on lists of them, and the conditional.
use Prim.Native.Nat.{ℕ, compare, Ordering}
use Prim.Native.Char.{code}
use Prim.Native.String.{String}
use mathlib.Core.Path.{◌≡◌, refl}
use mathlib.Core.Logic.{◌≢◌, ◌↔◌, ◌⊎◌, inl, inr}
use mathlib.Core.Bool.{Bool, true, false, ◌&&◌}
use mathlib.Core.Option.{Option, none, some}
use mathlib.Core.List.{List, [], ◌∷◌}
use native.Mathlib.Omega.{arith}

abbrev pub ltb : ℕ → ℕ → Bool
ltb a b = elim (compare a b) [ Ordering.lt ↦ true | _ ↦ false ]

abbrev pub leb : ℕ → ℕ → Bool
leb a b = elim (compare a b) [ Ordering.gt ↦ false | _ ↦ true ]

infix 50 ◌==◌
abbrev pub ◌==◌ : ℕ → ℕ → Bool
a == b = elim (compare a b) [ Ordering.eq ↦ true | _ ↦ false ]

infix 1 if◌then◌else◌
abbrev pub if◌then◌else◌ {ℓ} : {A : Type ℓ} → Bool → A → A → A
if true then x else y = x
if false then x else y = y

pub if_true {ℓ} : {A : Type ℓ} {b : Bool} (x y : A) → b ≡ true → (if b then x else y) ≡ x
if_true x y e = rw e

pub if_false {ℓ} : {A : Type ℓ} {b : Bool} (x y : A) → b ≡ false → (if b then x else y) ≡ y
if_false x y e = rw e

-- To split on a computed value and keep the equation.
pub Bool-cases : (b : Bool) → (b ≡ true) ⊎ (b ≡ false)
Bool-cases true = inl refl
Bool-cases false = inr refl

-- Equality of byte strings, and of texts as sequences of code points.
unfoldable pub seq_eq : List ℕ → List ℕ → Bool
seq_eq [] [] = true
seq_eq [] (y ∷ ys) = false
seq_eq (x ∷ xs) [] = false
seq_eq (x ∷ xs) (y ∷ ys) = x == y && seq_eq xs ys

pub seq_eq_sound : (xs ys : List ℕ) → seq_eq xs ys ≡ true → xs ≡ ys
unfolding seq_eq
seq_eq_sound [] [] h = refl
seq_eq_sound [] (y ∷ ys) h = cc
seq_eq_sound (x ∷ xs) [] h = cc
seq_eq_sound (x ∷ xs) (y ∷ ys) h = ground (arith, seq_eq_sound xs ys)

pub seq_eq_refl : (xs : List ℕ) → seq_eq xs xs ≡ true
unfolding seq_eq
seq_eq_refl [] = refl
seq_eq_refl (x ∷ xs) = ground (arith, seq_eq_refl xs)

pub seq_eq_iff : (xs ys : List ℕ) → (seq_eq xs ys ≡ true) ↔ (xs ≡ ys)
seq_eq_iff xs ys = (seq_eq_sound xs ys, λ e. rw e (seq_eq_refl ys))

pub seq_eq-ne : (xs ys : List ℕ) → xs ≢ ys → seq_eq xs ys ≡ false
seq_eq-ne xs ys h = elim (Bool-cases (seq_eq xs ys)) [
  | inl same ↦ absurd (h (seq_eq_sound xs ys same))
  | inr differ ↦ differ
]

pub Option-cases {ℓ} : {A : Type ℓ} (o : Option A) → (o ≡ none) ⊎ ((a : A) × (o ≡ some a))
Option-cases none = inl refl
Option-cases (some a) = inr (a, refl)

-- The code points of a literal; of an ASCII literal these are also its bytes.
abbrev pub codes : String → List ℕ
codes String.[] = []
codes (String.◌∷◌ c s) = code c ∷ codes s
