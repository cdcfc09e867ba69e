-- ===== src/Common/Table.antt =====
-- A database table as the list of its rows: lookup of the first row that passes a test, the update
-- of that row, and the number of rows that pass a test.
use ai_jin_shu.Common.{
  length, select, suc, subst, ap, ◌++◌, map, ℕ, ◌+◌, ◌≤◌, ◌≡◌, refl, Bool, true, false, List, [],
  ◌∷◌, Option, none, some, arith, All, Bool-cases, inl, inr, if◌then◌else◌, any,
}

module _ {ℓ} {A : Type ℓ} where
  -- `select(T).where(p)` with `scalar_one_or_none`
  abbrev pub find : (A → Bool) → List A → Option A
  find p [] = none
  find p (x ∷ xs) = let rest = find p xs in if p x then some x else rest

  -- The new value of the row that `find` returns.
  abbrev pub put : (A → Bool) → A → List A → List A
  put p y [] = []
  put p y (x ∷ xs) = let rest = put p y xs in if p x then y ∷ xs else x ∷ rest

  abbrev pub weight : (A → Bool) → A → ℕ
  weight p x = if p x then 1 else 0

  abbrev pub count : (A → Bool) → List A → ℕ
  count p [] = 0
  count p (x ∷ xs) = weight p x + count p xs

module _ {ℓ} {A : Type ℓ} where
  pub find-passes : (p : A → Bool) (xs : List A) (a : A) → find p xs ≡ some a → p a ≡ true
  find-passes p [] a h = ground arith
  find-passes p (x ∷ xs) a h = ground (arith, find-passes p xs a)

  pub find-put_self :
      (p : A → Bool) (b : A) (xs : List A) (a : A)
      → find p xs ≡ some a
      → p b ≡ true
      → find p (put p b xs) ≡ some b
  find-put_self p b [] a h t = ground arith
  find-put_self p b (x ∷ xs) a h t = elim (Bool-cases (p x)) [
    | inl e ↦ rw e (rw t)
    | inr e ↦ rw e (rw e (find-put_self p b xs a (rw e at h) t))
  ]

  -- A lookup by another key does not see the write.
  pub find-put_other :
      (p q : A → Bool) (b : A) (xs : List A) (a : A)
      → find p xs ≡ some a
      → q a ≡ false
      → q b ≡ false
      → find q (put p b xs) ≡ find q xs
  find-put_other p q b [] a h e f = refl
  find-put_other p q b (x ∷ xs) a h e f = elim (Bool-cases (p x)) [
    | inl t ↦ rw t (ground arith)
    | inr t ↦ rw t (ap (λ r. if q x then some x else r) (find-put_other p q b xs a (rw t at h) e f))
  ]

  -- A write changes the count by what it changes on its own row.
  pub count-put :
      (p q : A → Bool) (b : A) (xs : List A) (a : A)
      → find p xs ≡ some a
      → count q (put p b xs) + weight q a ≡ count q xs + weight q b
  count-put p q b [] a h = ground arith
  count-put p q b (x ∷ xs) a h = elim (Bool-cases (p x)) [
    | inl t ↦ rw t (ground arith)
    | inr t ↦ rw t (ground (arith, count-put p q b xs a (rw t at h)))
  ]

  pub count-map-le :
      (q : A → Bool) (f : A → A) (xs : List A)
      → ((x : A) → weight q (f x) ≤ weight q x)
      → count q (map f xs) ≤ count q xs
  count-map-le q f [] h = omega arith
  count-map-le q f (x ∷ xs) h = omega (arith, h x, count-map-le q f xs h)

  pub count-none : (p : A → Bool) (xs : List A) → find p xs ≡ none → count p xs ≡ 0
  count-none p [] h = refl
  count-none p (x ∷ xs) h = ground (arith, count-none p xs)

  pub find-append_one :
      (q : A → Bool) (b : A) (xs : List A)
      → find q (xs ++ b ∷ [])
        ≡ elim (find q xs) [ none ↦ if q b then some b else none | some a ↦ some a ]
  find-append_one q b [] = refl
  find-append_one q b (x ∷ xs) = elim (Bool-cases (q x)) [
    | inl e ↦ rw e refl
    | inr e ↦ rw e (find-append_one q b xs)
  ]

  pub count-append_one :
      (q : A → Bool) (b : A) (xs : List A) → count q (xs ++ b ∷ []) ≡ count q xs + weight q b
  count-append_one q b [] = omega arith
  count-append_one q b (x ∷ xs) = omega (arith, count-append_one q b xs)

module _ {ℓ} {A : Type ℓ} where
  pub length-append_one : (b : A) (xs : List A) → length (xs ++ b ∷ []) ≡ suc (length xs)
  length-append_one b [] = refl
  length-append_one b (x ∷ xs) = ap suc (length-append_one b xs)

  pub length-select : (p : A → Bool) (xs : List A) → length (select p xs) ≡ count p xs
  length-select p [] = refl
  length-select p (x ∷ xs) = ground (arith, length-select p xs)

module _ {ℓ} {A : Type ℓ} (p : A → Bool) where
  -- A row more takes no row that passes away.
  pub any-append : (b : A) (xs : List A) → any p xs ≡ true → any p (xs ++ b ∷ []) ≡ true
  any-append b [] h = ground arith
  any-append b (x ∷ xs) h = ground (arith, any-append b xs)

  pub any-append_new : (b : A) (xs : List A) → p b ≡ true → any p (xs ++ b ∷ []) ≡ true
  any-append_new b [] h = ground arith
  any-append_new b (x ∷ xs) h = ground (arith, any-append_new b xs)

module _ {ℓ κ} {A : Type ℓ} (P : A → Type κ) where
  pub All-find : (p : A → Bool) (xs : List A) (a : A) → All P xs → find p xs ≡ some a → P a
  All-find p [] a h e = absurd (ground arith)
  All-find p (x ∷ xs) a h e = elim (Bool-cases (p x)) [
    | inl t ↦ subst P (ground arith) h.0
    | inr t ↦ All-find p xs a h.1 (rw t at e)
  ]

  pub All-put : (p : A → Bool) (b : A) (xs : List A) → All P xs → P b → All P (put p b xs)
  All-put p b [] h k = h
  All-put p b (x ∷ xs) h k = elim (Bool-cases (p x)) [
    | inl t ↦ rw t (k, h.1)
    | inr t ↦ rw t (h.0, All-put p b xs h.1 k)
  ]

  pub All-map : (f : A → A) (xs : List A) → ((x : A) → P x → P (f x)) → All P xs → All P (map f xs)
  All-map f [] k h = h
  All-map f (x ∷ xs) k h = (k x h.0, All-map f xs k h.1)

  pub All-append_one : (b : A) (xs : List A) → All P xs → P b → All P (xs ++ b ∷ [])
  All-append_one b [] h k = (k, tt)
  All-append_one b (x ∷ xs) h k = (h.0, All-append_one b xs h.1 k)

pub All-imp {ℓ κ μ} :
    {A : Type ℓ} (P : A → Type κ) (Q : A → Type μ) (xs : List A)
    → ((x : A) → P x → Q x)
    → All P xs
    → All Q xs
All-imp P Q [] f h = tt
All-imp P Q (x ∷ xs) f h = (f x h.0, All-imp P Q xs f h.1)
