-- ===== src/Base/Sort.antt =====
-- `std::sort`. The standard leaves the order of equivalent elements open, so the code's sorts are an
-- interface, `Sorter`: any function that permutes its input and sorts it by a strict weak order.
-- Insertion sort is one.
use mathlib.Core.Path.{◌≡◌}
use mathlib.Core.Bool.{Bool, true, false}
use mathlib.Core.List.{List, [], ◌∷◌, Perm}
use mathlib.Core.List.Perm
use mathlib.Core.Logic.{inl, inr}
use mind_trace.Base.Tests.{if◌then◌else◌, Bool-cases}
use mind_trace.Base.Lists.{All, All-mono}

module _ {ℓ} {A : Type ℓ} where
  pub record IsStrictWeak (less : A → A → Bool) : Type ℓ where
    pub asym : (a b : A) → less a b ≡ true → less b a ≡ false
    pub negative_trans : (a b c : A) → less a b ≡ false → less b c ≡ false → less a c ≡ false

  -- No element comes before a smaller one.
  abbrev pub Sorted : (A → A → Bool) → List A → Type 0
  Sorted less [] = Unit
  Sorted less (x ∷ xs) = All (λ y. less y x ≡ false) xs × Sorted less xs

  insert_sorted : (A → A → Bool) → A → List A → List A
  insert_sorted less x [] = x ∷ []
  insert_sorted less x (y ∷ ys) = if less y x then y ∷ insert_sorted less x ys else x ∷ y ∷ ys

  unfoldable pub insertion_sort : (A → A → Bool) → List A → List A
  unfolding insert_sorted
  insertion_sort less [] = []
  insertion_sort less (x ∷ xs) = insert_sorted less x (insertion_sort less xs)

  insert_sorted-perm :
      (less : A → A → Bool) (x : A) (ys : List A) → Perm (insert_sorted less x ys) (x ∷ ys)
  unfolding insert_sorted
  insert_sorted-perm less x [] = Perm.refl (x ∷ [])
  insert_sorted-perm less x (y ∷ ys) = elim (Bool-cases (less y x)) [
    | inl e ↦ rw e (Perm.trans (Perm.cons y (insert_sorted-perm less x ys)) (Perm.swap x y ys))
    | inr e ↦ rw e (Perm.refl (x ∷ y ∷ ys))
  ]

  pub insertion_sort-perm : (less : A → A → Bool) (xs : List A) → Perm (insertion_sort less xs) xs
  unfolding insertion_sort
  insertion_sort-perm less [] = Perm.refl []
  insertion_sort-perm less (x ∷ xs) =
      Perm.trans (insert_sorted-perm less x (insertion_sort less xs))
        (Perm.cons x (insertion_sort-perm less xs))

  insert_sorted-All :
      (P : A → Type 0) (less : A → A → Bool) (x : A) (ys : List A)
      → P x
      → All P ys
      → All P (insert_sorted less x ys)
  unfolding insert_sorted
  insert_sorted-All P less x [] h hs = (h, tt)
  insert_sorted-All P less x (y ∷ ys) h (hy, hs) = elim (Bool-cases (less y x)) [
    | inl e ↦ rw e (hy, insert_sorted-All P less x ys h hs)
    | inr e ↦ rw e (h, (hy, hs))
  ]

  insert_sorted-Sorted :
      (less : A → A → Bool)
      → IsStrictWeak less
      → (x : A) (ys : List A) → Sorted less ys
      → Sorted less (insert_sorted less x ys)
  unfolding insert_sorted
  insert_sorted-Sorted less w x [] s = (tt, tt)
  insert_sorted-Sorted less w x (y ∷ ys) (b, s) = elim (Bool-cases (less y x)) [
    | inl e ↦
        rw e (insert_sorted-All _ less x ys (w.asym y x e) b, insert_sorted-Sorted less w x ys s)
    | inr e ↦ rw e ((e, All-mono _ _ (λ z h. w.negative_trans z y x h e) ys b), (b, s))
  ]

  pub insertion_sort-Sorted :
      (less : A → A → Bool)
      → IsStrictWeak less
      → (xs : List A) → Sorted less (insertion_sort less xs)
  unfolding insertion_sort
  insertion_sort-Sorted less w [] = tt
  insertion_sort-Sorted less w (x ∷ xs) =
      insert_sorted-Sorted less w x _ (insertion_sort-Sorted less w xs)

-- `std::sort` on a vector of `A`.
pub record Sorter {ℓ} (A : Type ℓ) : Type ℓ where
  pub sort : (A → A → Bool) → List A → List A
  pub sort-perm : (less : A → A → Bool) (xs : List A) → Perm (sort less xs) xs
  pub sort-Sorted :
      (less : A → A → Bool) → IsStrictWeak less → (xs : List A) → Sorted less (sort less xs)

abbrev pub insertion_sorter {ℓ} : {A : Type ℓ} → Sorter A
insertion_sorter = record {
  sort = insertion_sort;
  sort-perm = insertion_sort-perm;
  sort-Sorted = insertion_sort-Sorted;
}
