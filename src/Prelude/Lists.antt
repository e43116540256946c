-- ===== src/Prelude/Lists.antt =====
-- Lists measured by native numbers and filtered by Boolean tests, under the library's names.
use Prim.Native.Nat.{ℕ, suc, ◌+◌}
use mathlib.Core.Path.{◌≡◌, refl, subst}
use mathlib.Core.Bool.{Bool, true}
use mathlib.Core.List.{List, [], ◌∷◌, ◌++◌, Permᴰ}
use mathlib.Core.Logic.{◌⊎◌, inl, inr}
use native.Mathlib.Omega.{arith}
use vaala_ai_gateway.Prelude.Tests.{if◌then◌else◌, Bool-cases}

module _ {ℓ} {A : Type ℓ} where
  abbrev pub length : List A → ℕ
  length [] = 0
  length (x ∷ xs) = suc (length xs)

  pub length-append : (xs ys : List A) → length (xs ++ ys) ≡ length xs + length ys
  length-append [] ys = omega arith
  length-append (x ∷ xs) ys = omega (arith, length-append xs ys)

-- The empty type at each level.
pub data Never {ℓ} : Type ℓ where

module _ {ℓ} {A : Type ℓ} where
  -- The elements that pass the test, in their order.
  abbrev pub filter : (A → Bool) → List A → List A
  filter p [] = []
  filter p (x ∷ xs) = if p x then x ∷ filter p xs else filter p xs

  -- Membership that computes to a sum, which the tactics take apart.
  abbrev pub IsIn : A → List A → Type ℓ
  IsIn a [] = Never
  IsIn a (x ∷ xs) = (a ≡ x) ⊎ IsIn a xs

  pub IsIn-filter :
      (p : A → Bool) (xs : List A) {a : A} → IsIn a (filter p xs) → IsIn a xs × (p a ≡ true)
  IsIn-filter p [] m = elim m [ ]
  IsIn-filter p (x ∷ xs) {a} m = elim (Bool-cases (p x)) [
    | inl e ↦ elim (rw e at m) [
      | inl h ↦ (inl h, rw h e)
      | inr h ↦ let (i, t) = IsIn-filter p xs h in (inr i, t)
    ]
    | inr e ↦ let (i, t) = IsIn-filter p xs (rw e at m) in (inr i, t)
  ]

  pub IsIn-filter_of :
      (p : A → Bool) (xs : List A) (a : A) → IsIn a xs → p a ≡ true → IsIn a (filter p xs)
  IsIn-filter_of p [] a i h = i
  IsIn-filter_of p (x ∷ xs) a i h = elim (Bool-cases (p x)) [
    | inl e ↦ rw e (elim i [ inl q ↦ inl q | inr q ↦ inr (IsIn-filter_of p xs a q h) ])
    | inr e ↦ rw e (elim i [ inl q ↦ absurd (cc) | inr q ↦ IsIn-filter_of p xs a q h ])
  ]

  abbrev pub All {κ} : (A → Type κ) → List A → Type κ
  All P [] = Unit
  All P (x ∷ xs) = P x × All P xs

  pub All-of_IsIn {κ} : (P : A → Type κ) (xs : List A) → ((a : A) → IsIn a xs → P a) → All P xs
  All-of_IsIn P [] h = tt
  All-of_IsIn P (x ∷ xs) h = (h x (inl refl), All-of_IsIn P xs (λ a i. h a (inr i)))

  pub All-IsIn {κ} : (P : A → Type κ) (xs : List A) → All P xs → (a : A) → IsIn a xs → P a
  All-IsIn P [] h a i = elim i [ ]
  All-IsIn P (x ∷ xs) h a (inl e) = rw e h.0
  All-IsIn P (x ∷ xs) h a (inr i) = All-IsIn P xs h.1 a i

  pub All-concat {κ} : (P : A → Type κ) (xs ys : List A) → All P xs → All P ys → All P (xs ++ ys)
  All-concat P [] ys h k = k
  All-concat P (x ∷ xs) ys h k = (h.0, All-concat P xs ys h.1 k)

  pub All-mono {κ} : (P Q : A → Type κ) (xs : List A) → ((a : A) → P a → Q a) → All P xs → All Q xs
  All-mono P Q [] f h = tt
  All-mono P Q (x ∷ xs) f h = (f x h.0, All-mono P Q xs f h.1)

  pub All-perm {κ} : (P : A → Type κ) {xs ys : List A} → Permᴰ xs ys → All P xs → All P ys
  All-perm P Permᴰ.nil h = tt
  All-perm P (Permᴰ.cons e p) h = (subst P e h.0, All-perm P p h.1)
  All-perm P (Permᴰ.swap e f) h = (subst P f h.1.0, (subst P e h.0, h.1.1))
  All-perm P (Permᴰ.trans p q) h = All-perm P q (All-perm P p h)
