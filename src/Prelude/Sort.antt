-- ===== src/Prelude/Sort.antt =====
-- `Array.prototype.sort`, which is stable: an insertion sort that puts `x` after `y` only where
-- the comparator says so. `after x y` stands for a comparator result above 0.
use mathlib.Core.Path.{◌≡◌, refl, sym, subst, ◌∙◌}
use mathlib.Core.Bool.{Bool}
use mathlib.Core.List.{List, [], ◌∷◌, Perm, Permᴰ, Memᴰ}
use mathlib.Core.List.Perm
use mathlib.Core.Logic.{inl, inr, ∥∥₁_elim}
use native.Mathlib.Nat.{ℕ_set}
use native.Mathlib.Omega.{arith}
use league_table.Prelude.Tests.{if◌then◌else◌, Bool-cases}
use league_table.Prelude.Lists.{All, count}

module _ {ℓ} {A : Type ℓ} (after : A → A → Bool) where
  abbrev pub sort_insert : A → List A → List A
  sort_insert x [] = x ∷ []
  sort_insert x (y ∷ ys) = let rest = sort_insert x ys in if after x y then y ∷ rest else x ∷ y ∷ ys

  abbrev pub sort : List A → List A
  sort [] = []
  sort (x ∷ xs) = sort_insert x (sort xs)

  sort_insert-perm : (x : A) (xs : List A) → Perm (sort_insert x xs) (x ∷ xs)
  sort_insert-perm x [] = Perm.rfl
  sort_insert-perm x (y ∷ ys) = elim (Bool-cases (after x y)) [
    | inl e ↦ rw e (Perm.trans (Perm.cons y (sort_insert-perm x ys)) (Perm.swap x y ys))
    | inr e ↦ rw e Perm.rfl
  ]

  pub sort-perm : (xs : List A) → Perm (sort xs) xs
  sort-perm [] = Perm.rfl
  sort-perm (x ∷ xs) = Perm.trans (sort_insert-perm x (sort xs)) (Perm.cons x (sort-perm xs))

  -- What holds of every element of the input holds of the output.
  module _ {κ} (P : A → Type κ) where
    All-sort_insert : (x : A) (xs : List A) → P x → All P xs → All P (sort_insert x xs)
    All-sort_insert x [] p h = (p, tt)
    All-sort_insert x (y ∷ ys) p (q, h) = elim (Bool-cases (after x y)) [
      | inl e ↦ rw e (q, All-sort_insert x ys p h)
      | inr e ↦ rw e (p, (q, h))
    ]

    pub All-sort : (xs : List A) → All P xs → All P (sort xs)
    All-sort [] h = tt
    All-sort (x ∷ xs) (p, h) = All-sort_insert x (sort xs) p (All-sort xs h)

  inserted-Memᴰ : (x : A) (xs : List A) → Memᴰ x (sort_insert x xs)
  inserted-Memᴰ x [] = Memᴰ.head refl
  inserted-Memᴰ x (y ∷ ys) = elim (Bool-cases (after x y)) [
    | inl e ↦ rw e (Memᴰ.tail (inserted-Memᴰ x ys))
    | inr e ↦ rw e (Memᴰ.head refl)
  ]

  sort_insert-Memᴰ : {z : A} (x : A) (xs : List A) → Memᴰ z xs → Memᴰ z (sort_insert x xs)
  sort_insert-Memᴰ x [] m = Memᴰ.tail m
  sort_insert-Memᴰ x (y ∷ ys) (Memᴰ.head s) = elim (Bool-cases (after x y)) [
    | inl e ↦ rw e (Memᴰ.head s)
    | inr e ↦ rw e (Memᴰ.tail (Memᴰ.head s))
  ]
  sort_insert-Memᴰ x (y ∷ ys) (Memᴰ.tail m) = elim (Bool-cases (after x y)) [
    | inl e ↦ rw e (Memᴰ.tail (sort_insert-Memᴰ x ys m))
    | inr e ↦ rw e (Memᴰ.tail (Memᴰ.tail m))
  ]

  -- Sorting keeps every element.
  pub sort-Memᴰ : {z : A} (xs : List A) → Memᴰ z xs → Memᴰ z (sort xs)
  sort-Memᴰ [] m = m
  sort-Memᴰ (x ∷ xs) (Memᴰ.head e) =
      subst (λ z. Memᴰ z (sort (x ∷ xs))) (sym e) (inserted-Memᴰ x (sort xs))
  sort-Memᴰ (x ∷ xs) (Memᴰ.tail m) = sort_insert-Memᴰ x (sort xs) (sort-Memᴰ xs m)

  module _ (p : A → Bool) where
    count-sort_insert : (x : A) (xs : List A) → count p (sort_insert x xs) ≡ count p (x ∷ xs)
    count-sort_insert x [] = refl
    count-sort_insert x (y ∷ ys) = ground (arith, count-sort_insert x ys)

    -- Sorting keeps how many elements pass a test.
    pub count-sort : (xs : List A) → count p (sort xs) ≡ count p xs
    count-sort [] = refl
    count-sort (x ∷ xs) = omega (arith, count-sort_insert x (sort xs), count-sort xs)

module _ {ℓ} {A : Type ℓ} (p : A → Bool) where
  count-Permᴰ : {xs ys : List A} → Permᴰ xs ys → count p xs ≡ count p ys
  count-Permᴰ Permᴰ.nil = refl
  count-Permᴰ (Permᴰ.cons {a = a} {b = b} e d) = rw (e, count-Permᴰ d) refl
  count-Permᴰ (Permᴰ.swap {a = a} {b = b} e e') = rw (e, e') (omega arith)
  count-Permᴰ (Permᴰ.trans d d') = count-Permᴰ d ∙ count-Permᴰ d'

  -- Another order keeps how many elements pass a test.
  pub count-perm : {xs ys : List A} → Perm xs ys → count p xs ≡ count p ys
  count-perm d = ∥∥₁_elim d (ℕ_set _ _) count-Permᴰ
