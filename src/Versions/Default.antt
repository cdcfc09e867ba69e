-- ===== src/Versions/Default.antt =====
-- The default version of a novel, over any sequence of the calls of app/services/rewrite/service.py.
use ai_jin_shu.Common.{
  ℕ, ◌≤◌, ◌≡◌, refl, some, List, [], map, arith, ltb, ◌==◌, Bool-cases, Option-cases, inl, inr, ap,
  subst, ok-injective, if◌then◌else◌, ok,
}
use ai_jin_shu.Common.Table.{count, count-append_one}
use ai_jin_shu.Versions.{
  NovelVersion, ChapterText, Library, has_version_id, of_book, default_of, set_default_row,
  raise_default, add_version, first_version, ensure_default_version, version_of, activate_version,
  target_version, create_target_version, with_default,
}
use ai_jin_shu.Versions.Counts.{
  Ensured, same, raised, added, count-map_mono, count-le, ensure-Ensured,
}

abbrev pub OneDefault : ℕ → Library → Type 0
OneDefault n lib = count (default_of n) lib.versions ≤ 1

-- An id is in use at most once, and only below the sequence of the ids.
abbrev pub IdOnce : ℕ → Library → Type 0
IdOnce i lib = count (has_version_id i) lib.versions ≤ (if ltb i lib.next_version then 1 else 0)

-- The tables after any sequence of the calls, from an empty one.
pub data Reach : Library → Type 0 where
  start :
      (chapters : List ChapterText) (next : ℕ)
      → Reach (record { versions = []; next_version = 0; chapters = chapters; next_chapter = next })
  ensured :
      {lib : Library} (n : ℕ) (v : NovelVersion) (after : Library)
      → Reach lib
      → ensure_default_version n lib ≡ ok (v, after)
      → Reach after
  activated :
      {lib : Library} (n i : ℕ) (v : NovelVersion) (after : Library)
      → Reach lib
      → activate_version n i lib ≡ ok (v, after)
      → Reach after
  targeted :
      {lib : Library} (n from : ℕ) (base : NovelVersion)
      → Reach lib
      → Reach (create_target_version n base from lib).1

add_version-IdOnce :
    (i : ℕ) (v : NovelVersion) (lib : Library)
    → v.id ≡ lib.next_version
    → IdOnce i lib
    → IdOnce i (add_version v lib)
add_version-IdOnce i v lib e h = ground (arith, count-append_one (has_version_id i) v lib.versions)

Ensured-IdOnce :
    (i n : ℕ) (lib after : Library) → Ensured n lib after → IdOnce i lib → IdOnce i after
Ensured-IdOnce i n lib after (same e) h = subst (IdOnce i) e h
Ensured-IdOnce i n lib after (raised w c e) h = subst (IdOnce i) e (
    omega (
      arith,
      count-map_mono (has_version_id i) (has_version_id i) (raise_default n w.id) lib.versions
          (λ v. ground arith),
    ))
Ensured-IdOnce i n lib after (added c e) h =
    subst (IdOnce i) e (add_version-IdOnce i (first_version n lib.next_version) lib refl h)

Ensured-OneDefault :
    (m n : ℕ) (lib after : Library) → Ensured n lib after → OneDefault m lib → OneDefault m after
Ensured-OneDefault m n lib after (same e) h = subst (OneDefault m) e h
Ensured-OneDefault m n lib after (raised w c e) h =
    subst (OneDefault m) e (elim (Bool-cases (m == n)) [
      | inl q ↦ omega (
        arith,
        count-map_mono (default_of m) (of_book n) (raise_default n w.id) lib.versions
            (λ v. ground arith),
      )
      | inr q ↦ omega (
        arith,
        count-map_mono (default_of m) (default_of m) (raise_default n w.id) lib.versions
            (λ v. ground arith),
      )
    ])
Ensured-OneDefault m n lib after (added c e) h =
    subst (OneDefault m) e (elim (Bool-cases (m == n)) [
      | inl q ↦ ground (
        arith,
        count-append_one (default_of m) (first_version n lib.next_version) lib.versions,
        count-le (default_of m) (of_book n) lib.versions (λ v. ground arith),
      )
      | inr q ↦
          ground
            (arith, count-append_one (default_of m) (first_version n lib.next_version) lib.versions)
    ])

target-IdOnce :
    (i n from : ℕ) (base : NovelVersion) (lib : Library)
    → IdOnce i lib
    → IdOnce i (create_target_version n base from lib).1
unfolding create_target_version
target-IdOnce i n from base lib h = add_version-IdOnce i (target_version n base lib) lib refl h

target-OneDefault :
    (m n from : ℕ) (base : NovelVersion) (lib : Library)
    → OneDefault m lib
    → OneDefault m (create_target_version n base from lib).1
unfolding create_target_version
target-OneDefault m n from base lib h =
    ground (arith, count-append_one (default_of m) (target_version n base lib) lib.versions)

-- A version that was activated: it was there, and is the default of its novel.
abbrev pub activated_from : ℕ → ℕ → Library → Library
activated_from n i lib = record lib { versions = map (set_default_row n i) lib.versions }

pub activate-inversion :
    (n i : ℕ) (lib : Library) (v : NovelVersion) (after : Library)
    → activate_version n i lib ≡ ok (v, after)
    → (w : NovelVersion) × (version_of n i lib ≡ some w)
      × (with_default i w ≡ v)
      × (activated_from n i lib ≡ after)
unfolding activate_version
activate-inversion n i lib v after e = elim (Option-cases (version_of n i lib)) [
  | inl h ↦ absurd (let x = rw (h, activate_version) at e in cc)
  | inr (w, h) ↦
      let k = ok-injective _ _ (rw (h, activate_version) at e) in
      (w, h, ap (λ p. p.0) k, ap (λ p. p.1) k)
]

activated-IdOnce : (j n i : ℕ) (lib : Library) → IdOnce j lib → IdOnce j (activated_from n i lib)
activated-IdOnce j n i lib h = omega (
  arith,
  count-map_mono (has_version_id j) (has_version_id j) (set_default_row n i) lib.versions
      (λ v. ground arith),
)

activated-OneDefault :
    (m n i : ℕ) (lib : Library)
    → IdOnce i lib
    → OneDefault m lib
    → OneDefault m (activated_from n i lib)
activated-OneDefault m n i lib k h = elim (Bool-cases (m == n)) [
  | inl q ↦ ground (
    arith,
    count-map_mono (default_of m) (has_version_id i) (set_default_row n i) lib.versions
        (λ v. ground arith),
  )
  | inr q ↦ omega (
    arith,
    count-map_mono (default_of m) (default_of m) (set_default_row n i) lib.versions
        (λ v. ground arith),
  )
]

pub Reach-IdOnce : {lib : Library} → Reach lib → (i : ℕ) → IdOnce i lib
Reach-IdOnce (start chapters next) i = omega arith
Reach-IdOnce (ensured {lib} n v after r e) i =
    Ensured-IdOnce i n lib after (ensure-Ensured n lib v after e) (Reach-IdOnce r i)
Reach-IdOnce (activated {lib} n j v after r e) i =
    subst (IdOnce i) (activate-inversion n j lib v after e).3
      (activated-IdOnce i n j lib (Reach-IdOnce r i))
Reach-IdOnce (targeted {lib} n from base r) i = target-IdOnce i n from base lib (Reach-IdOnce r i)

-- Whatever versions are ensured, activated and created, a novel never has two default versions.
pub Reach-OneDefault : {lib : Library} → Reach lib → (n : ℕ) → OneDefault n lib
Reach-OneDefault (start chapters next) n = omega arith
Reach-OneDefault (ensured {lib} m v after r e) n =
    Ensured-OneDefault n m lib after (ensure-Ensured m lib v after e) (Reach-OneDefault r n)
Reach-OneDefault (activated {lib} m i v after r e) n =
    subst (OneDefault n) (activate-inversion m i lib v after e).3
      (activated-OneDefault n m i lib (Reach-IdOnce r i) (Reach-OneDefault r n))
Reach-OneDefault (targeted {lib} m from base r) n =
    target-OneDefault n m from base lib (Reach-OneDefault r n)
