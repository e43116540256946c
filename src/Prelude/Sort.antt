-- ===== src/Prelude/Sort.antt =====
-- Go's `sort.SliceStable`: the stable order is unique, so any stable sort computes it.
use vaala_ai_gateway.Prelude.Tests.{if◌then◌else◌, Bool-cases}
use vaala_ai_gateway.Prelude.Lists.{IsIn, All, All-mono}
use mathlib.Core.Path.{◌≡◌, refl}
use mathlib.Core.Bool.{Bool, true, false}
use mathlib.Core.List.Permᴰ
use mathlib.Core.List.{List, [], ◌∷◌, Permᴰ}
use mathlib.Core.Logic.{◌⊎◌, inl, inr}

module _ {ℓ} {A : Type ℓ} (less : A → A → Bool) where
  -- Before the first element that is not to stand before it.
  abbrev pub insert : A → List A → List A
  insert x [] = x ∷ []
  insert x (y ∷ ys) = if less y x then y ∷ insert x ys else x ∷ y ∷ ys

  unfoldable pub slice_stable : List A → List A
  slice_stable [] = []
  slice_stable (x ∷ xs) = insert x (slice_stable xs)

  IsIn-insert : (x : A) (ys : List A) {a : A} → (a ≡ x) ⊎ IsIn a ys → IsIn a (insert x ys)
  IsIn-insert x [] h = h
  IsIn-insert x (y ∷ ys) {a} h = elim (Bool-cases (less y x)) [
    | inr e ↦ rw e h
    | inl e ↦ rw e (elim h [
      | inl p ↦ inr (IsIn-insert x ys (inl p))
      | inr q ↦ elim q [ inl p ↦ inl p | inr p ↦ inr (IsIn-insert x ys (inr p)) ]
    ])
  ]

  IsIn_of_insert : (x : A) (ys : List A) {a : A} → IsIn a (insert x ys) → (a ≡ x) ⊎ IsIn a ys
  IsIn_of_insert x [] h = h
  IsIn_of_insert x (y ∷ ys) {a} h = elim (Bool-cases (less y x)) [
    | inr e ↦ rw e at h
    | inl e ↦ elim (rw e at h) [
      | inl p ↦ inr (inl p)
      | inr q ↦ elim (IsIn_of_insert x ys q) [ inl p ↦ inl p | inr p ↦ inr (inr p) ]
    ]
  ]

  -- Sorting keeps the elements.
  pub IsIn-slice_stable : (xs : List A) (a : A) → IsIn a xs → IsIn a (slice_stable xs)
  unfolding slice_stable
  IsIn-slice_stable [] a h = h
  IsIn-slice_stable (x ∷ xs) a (inl e) = IsIn-insert x (slice_stable xs) (inl e)
  IsIn-slice_stable (x ∷ xs) a (inr m) =
      IsIn-insert x (slice_stable xs) (inr (IsIn-slice_stable xs a m))

  pub IsIn_of_slice_stable : (xs : List A) (a : A) → IsIn a (slice_stable xs) → IsIn a xs
  unfolding slice_stable
  IsIn_of_slice_stable [] a h = h
  IsIn_of_slice_stable (x ∷ xs) a h = elim (IsIn_of_insert x (slice_stable xs) h) [
    | inl e ↦ inl e
    | inr m ↦ inr (IsIn_of_slice_stable xs a m)
  ]

  -- Nothing is to stand before an element that precedes it.
  abbrev pub IsOrdered : List A → Type 0
  IsOrdered [] = Unit
  IsOrdered (x ∷ xs) = All (λ y. less y x ≡ false) xs × IsOrdered xs

  insert-perm : (x : A) (ys : List A) → Permᴰ (insert x ys) (x ∷ ys)
  insert-perm x [] = Permᴰ.refl (x ∷ [])
  insert-perm x (y ∷ ys) = elim (Bool-cases (less y x)) [
    | inl e ↦ rw e (Permᴰ.trans (Permᴰ.cons refl (insert-perm x ys)) (Permᴰ.swap refl refl))
    | inr e ↦ rw e (Permᴰ.refl (x ∷ y ∷ ys))
  ]

  pub slice_stable-perm : (xs : List A) → Permᴰ (slice_stable xs) xs
  unfolding slice_stable
  slice_stable-perm [] = Permᴰ.nil
  slice_stable-perm (x ∷ xs) =
      Permᴰ.trans (insert-perm x (slice_stable xs)) (Permᴰ.cons refl (slice_stable-perm xs))

  -- `less` is a strict weak order, as the functions of package `sort` ask.
  pub record IsStrictWeak : Type ℓ where
    pub asym : (a b : A) → less a b ≡ true → less b a ≡ false
    pub neg_trans : (a b c : A) → less a b ≡ false → less b c ≡ false → less a c ≡ false

  module _ (w : IsStrictWeak) where
    All-insert : (P : A → Type 0) (x : A) (ys : List A) → P x → All P ys → All P (insert x ys)
    All-insert P x [] p h = (p, tt)
    All-insert P x (y ∷ ys) p h = elim (Bool-cases (less y x)) [
      | inl e ↦ rw e (h.0, All-insert P x ys p h.1)
      | inr e ↦ rw e (p, h)
    ]

    IsOrdered-insert : (x : A) (ys : List A) → IsOrdered ys → IsOrdered (insert x ys)
    IsOrdered-insert x [] h = (tt, tt)
    IsOrdered-insert x (y ∷ ys) h = elim (Bool-cases (less y x)) [
      | inl e ↦
          rw e
            (All-insert (λ a. less a y ≡ false) x ys (w.asym y x e) h.0, IsOrdered-insert x ys h.1)
      | inr e ↦
          rw e ((e, All-mono _ (λ a. less a x ≡ false) ys (λ a t. w.neg_trans a y x t e) h.0), h)
    ]

    pub slice_stable-IsOrdered : (xs : List A) → IsOrdered (slice_stable xs)
    unfolding slice_stable
    slice_stable-IsOrdered [] = tt
    slice_stable-IsOrdered (x ∷ xs) =
        IsOrdered-insert x (slice_stable xs) (slice_stable-IsOrdered xs)

-- Go's `sort.Slice`, which is not stable: what its documentation promises.
pub record SliceSort {ℓ} (A : Type ℓ) : Type ℓ where
  pub sort_slice : (A → A → Bool) → List A → List A
  pub sort_slice-perm : (less : A → A → Bool) (xs : List A) → Permᴰ (sort_slice less xs) xs
  pub sort_slice-IsOrdered :
      (less : A → A → Bool) (xs : List A) → IsStrictWeak less → IsOrdered less (sort_slice less xs)

-- A stable sort keeps the promise.
abbrev pub stable_slice_sort {ℓ} : {A : Type ℓ} → SliceSort A
stable_slice_sort = record {
  sort_slice = slice_stable;
  sort_slice-perm = slice_stable-perm;
  sort_slice-IsOrdered = λ less xs w. slice_stable-IsOrdered less w xs;
}
