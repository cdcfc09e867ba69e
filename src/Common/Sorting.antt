-- ===== src/Common/Sorting.antt =====
-- A stable sort by a test of order, and what it keeps.
use mathlib.Core.Path.{◌≡◌, refl}
use mathlib.Core.Logic.{inl, inr}
use mathlib.Core.Bool.{Bool, true, false, ◌&&◌, ◌||◌}
use mathlib.Core.List.{List, [], ◌∷◌}
use native.Mathlib.Omega.{arith}
use ai_jin_shu.Common.Tests.{if◌then◌else◌, Bool-cases}
use ai_jin_shu.Common.Lists.{all, any, All}
use ai_jin_shu.Common.Table.{count, weight}
use Prim.Native.Nat.{ℕ, ◌+◌}

module _ {ℓ} {A : Type ℓ} where
  abbrev pub IsSortedBy {κ} : (A → A → Type κ) → List A → Type κ
  IsSortedBy R [] = Unit
  IsSortedBy R (x ∷ xs) = All (R x) xs × IsSortedBy R xs

  abbrev pub sum_by : (A → ℕ) → List A → ℕ
  sum_by f [] = 0
  sum_by f (x ∷ xs) = f x + sum_by f xs

module _ {ℓ} {A : Type ℓ} (first : A → A → Bool) where
  -- `first a b`: `a` may stand before `b`.
  unfoldable pub insert_by : A → List A → List A
  insert_by a [] = a ∷ []
  insert_by a (b ∷ bs) = let rest = insert_by a bs in if first a b then a ∷ b ∷ bs else b ∷ rest

  unfoldable pub sort_by : List A → List A
  unfolding insert_by
  sort_by [] = []
  sort_by (a ∷ xs) = insert_by a (sort_by xs)

  pub all-insert_by :
      (p : A → Bool) (a : A) (bs : List A) → all p (insert_by a bs) ≡ (p a && all p bs)
  unfolding insert_by
  all-insert_by p a [] = refl
  all-insert_by p a (b ∷ bs) = elim (Bool-cases (first a b)) [
    | inl e ↦ rw e refl
    | inr e ↦ rw e (ground (arith, all-insert_by p a bs))
  ]

  pub all-sort_by : (p : A → Bool) (bs : List A) → all p (sort_by bs) ≡ all p bs
  unfolding sort_by
  all-sort_by p [] = refl
  all-sort_by p (b ∷ bs) = ground (arith, all-insert_by p b (sort_by bs), all-sort_by p bs)

  pub any-insert_by :
      (p : A → Bool) (a : A) (bs : List A) → any p (insert_by a bs) ≡ (p a || any p bs)
  unfolding insert_by
  any-insert_by p a [] = refl
  any-insert_by p a (b ∷ bs) = elim (Bool-cases (first a b)) [
    | inl e ↦ rw e refl
    | inr e ↦ rw e (ground (arith, any-insert_by p a bs))
  ]

  pub any-sort_by : (p : A → Bool) (bs : List A) → any p (sort_by bs) ≡ any p bs
  unfolding sort_by
  any-sort_by p [] = refl
  any-sort_by p (b ∷ bs) = ground (arith, any-insert_by p b (sort_by bs), any-sort_by p bs)

  pub count-insert_by :
      (p : A → Bool) (a : A) (bs : List A) → count p (insert_by a bs) ≡ weight p a + count p bs
  unfolding insert_by
  count-insert_by p a [] = refl
  count-insert_by p a (b ∷ bs) = elim (Bool-cases (first a b)) [
    | inl e ↦ rw e refl
    | inr e ↦ rw e (omega (arith, count-insert_by p a bs))
  ]

  pub count-sort_by : (p : A → Bool) (bs : List A) → count p (sort_by bs) ≡ count p bs
  unfolding sort_by
  count-sort_by p [] = refl
  count-sort_by p (b ∷ bs) = omega (arith, count-insert_by p b (sort_by bs), count-sort_by p bs)

  pub sum-insert_by :
      (f : A → ℕ) (a : A) (bs : List A) → sum_by f (insert_by a bs) ≡ f a + sum_by f bs
  unfolding insert_by
  sum-insert_by f a [] = refl
  sum-insert_by f a (b ∷ bs) = elim (Bool-cases (first a b)) [
    | inl e ↦ rw e refl
    | inr e ↦ rw e (omega (arith, sum-insert_by f a bs))
  ]

  pub sum-sort_by : (f : A → ℕ) (bs : List A) → sum_by f (sort_by bs) ≡ sum_by f bs
  unfolding sort_by
  sum-sort_by f [] = refl
  sum-sort_by f (b ∷ bs) = omega (arith, sum-insert_by f b (sort_by bs), sum-sort_by f bs)

  module _ {κ} (P : A → Type κ) where
    pub All-insert_by : (a : A) (bs : List A) → P a → All P bs → All P (insert_by a bs)
    unfolding insert_by
    All-insert_by a [] h k = (h, tt)
    All-insert_by a (b ∷ bs) h k = elim (Bool-cases (first a b)) [
      | inl e ↦ rw e (h, k)
      | inr e ↦ rw e (k.0, All-insert_by a bs h k.1)
    ]

    pub All-sort_by : (bs : List A) → All P bs → All P (sort_by bs)
    unfolding sort_by
    All-sort_by [] h = tt
    All-sort_by (b ∷ bs) h = All-insert_by b (sort_by bs) h.0 (All-sort_by bs h.1)

  -- A sort by an order leaves each element before those after it.
  module _ {κ} (R : A → A → Type κ) (trans : (a b c : A) → R a b → R b c → R a c)
      (before : (a b : A) → first a b ≡ true → R a b)
      (after : (a b : A) → first a b ≡ false → R b a) where
    All-trans : (a b : A) (xs : List A) → R a b → All (R b) xs → All (R a) xs
    All-trans a b [] h k = tt
    All-trans a b (x ∷ xs) h k = (trans a b x h k.0, All-trans a b xs h k.1)

    insert_by-IsSortedBy : (a : A) (bs : List A) → IsSortedBy R bs → IsSortedBy R (insert_by a bs)
    unfolding insert_by
    insert_by-IsSortedBy a [] h = (tt, tt)
    insert_by-IsSortedBy a (b ∷ bs) h = elim (Bool-cases (first a b)) [
      | inl e ↦ rw e ((before a b e, All-trans a b bs (before a b e) h.0), h)
      | inr e ↦ rw e (All-insert_by (R b) a bs (after a b e) h.0, insert_by-IsSortedBy a bs h.1)
    ]

    pub sort_by-IsSortedBy : (xs : List A) → IsSortedBy R (sort_by xs)
    unfolding sort_by
    sort_by-IsSortedBy [] = tt
    sort_by-IsSortedBy (x ∷ xs) = insert_by-IsSortedBy x (sort_by xs) (sort_by-IsSortedBy xs)
