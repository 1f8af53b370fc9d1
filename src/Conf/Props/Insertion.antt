-- ===== src/Conf/Props/Insertion.antt =====
-- Insertion sort, as a sort that does what sort.Slice documents.
use mathlib.Core.List.{Perm}
use mathlib.Core.List.Perm as Permuted
use tarunner.Base.{◌≡◌, Bool, false, List, [], ◌∷◌, All, inl, inr, Bool-cases, if◌then◌else◌}
use tarunner.Conf.Props.Order.{IsStrictWeak, Ordered}

module _ {ℓ} {A : Type ℓ} (less : A → A → Bool) where
  -- In front of the first element that x is less than, or that is not less than x.
  insert_by : A → List A → List A
  insert_by x [] = x ∷ []
  insert_by x (y ∷ ys) = let later = insert_by x ys in if less y x then y ∷ later else x ∷ y ∷ ys

  pub sort : List A → List A
  sort [] = []
  sort (x ∷ xs) = insert_by x (sort xs)

  insert_by-Perm : (x : A) (xs : List A) → Perm (insert_by x xs) (x ∷ xs)
  unfolding insert_by
  insert_by-Perm x [] = Permuted.rfl
  insert_by-Perm x (y ∷ ys) = elim (Bool-cases (less y x)) [
    | inl lower ↦
        rw lower (Permuted.trans (Permuted.cons y (insert_by-Perm x ys)) (Permuted.swap x y ys))
    | inr other ↦ rw other Permuted.rfl
  ]

  pub sort-Perm : (xs : List A) → Perm (sort xs) xs
  unfolding sort
  sort-Perm [] = Permuted.rfl
  sort-Perm (x ∷ xs) = Permuted.trans (insert_by-Perm x (sort xs)) (Permuted.cons x (sort-Perm xs))

  All-insert_by {κ} :
      (P : A → Type κ) (x : A) (xs : List A) → P x → All P xs → All P (insert_by x xs)
  unfolding insert_by
  All-insert_by P x [] p h = (p, tt)
  All-insert_by P x (y ∷ ys) p (q, h) = elim (Bool-cases (less y x)) [
    | inl lower ↦ rw lower (q, All-insert_by P x ys p h)
    | inr other ↦ rw other (p, (q, h))
  ]

  lower-All :
      IsStrictWeak less
      → (x y : A) (ys : List A) → less y x ≡ false
      → All (λ z. less z y ≡ false) ys
      → All (λ z. less z x ≡ false) ys
  lower-All S x y [] h k = tt
  lower-All S x y (z ∷ zs) h (k, ks) = (S.negatively_transitive z y x k h, lower-All S x y zs h ks)

  insert_by-Ordered :
      IsStrictWeak less
      → (x : A) (xs : List A) → Ordered (λ p q. less q p ≡ false) xs
      → Ordered (λ p q. less q p ≡ false) (insert_by x xs)
  unfolding insert_by Ordered
  insert_by-Ordered S x [] h = (tt, tt)
  insert_by-Ordered S x (y ∷ ys) (h, hs) = elim (Bool-cases (less y x)) [
    | inl lower ↦ rw lower (
      All-insert_by (λ z. less z y ≡ false) x ys (S.asymmetric y x lower) h,
      insert_by-Ordered S x ys hs,
    )
    | inr other ↦ rw other ((other, lower-All S x y ys other h), (h, hs))
  ]

  pub sort-Ordered : (xs : List A) → IsStrictWeak less → Ordered (λ p q. less q p ≡ false) (sort xs)
  unfolding sort Ordered
  sort-Ordered [] S = tt
  sort-Ordered (x ∷ xs) S = insert_by-Ordered S x (sort xs) (sort-Ordered xs S)
