-- ===== src/Versions/Counts.antt =====
-- What `ensure_default_version` leaves, and how many versions pass a test, in app/services/rewrite/service.py.
use ai_jin_shu.Common.{
  ℕ, ◌≤◌, ◌≡◌, Bool, Option, none, some, List, [], ◌∷◌, map, arith, length, select, ap,
  ok-injective, if◌then◌else◌, ok, >>=-eq-ok, is_some,
}
use ai_jin_shu.Common.Table.{count, weight, length-select}
use ai_jin_shu.Versions.{
  NovelVersion, Library, of_book, default_of, one_or_none, raise_default, add_version,
  first_version, with_latest, with_existing, ensure_default_version,
}

module _ (q r : NovelVersion → Bool) (f : NovelVersion → NovelVersion) where
  pub count-map_mono :
      (vs : List NovelVersion)
      → ((v : NovelVersion) → weight q (f v) ≤ weight r v)
      → count q (map f vs) ≤ count r vs
  count-map_mono [] h = omega arith
  count-map_mono (v ∷ vs) h = omega (arith, h v, count-map_mono vs h)

pub one_or_none-length :
    (vs : List NovelVersion) (o : Option NovelVersion)
    → one_or_none vs ≡ ok o
    → length vs ≡ (if is_some o then 1 else 0)
one_or_none-length [] o h = ground arith
one_or_none-length (v ∷ []) o h = ground arith
one_or_none-length (v ∷ w ∷ vs) o h = ground arith

pub count-le :
    (q r : NovelVersion → Bool) (vs : List NovelVersion)
    → ((v : NovelVersion) → weight q v ≤ weight r v)
    → count q vs ≤ count r vs
count-le q r [] h = omega arith
count-le q r (v ∷ vs) h = omega (arith, h v, count-le q r vs h)

-- What `ensure_default_version` may leave: the same tables, a default that was the only version, or
-- the first version.
pub data Ensured (n : ℕ) (lib : Library) (after : Library) : Type 0 where
  same : lib ≡ after → Ensured n lib after
  raised :
      (w : NovelVersion)
      → count (of_book n) lib.versions ≡ 1
      → record lib { versions = map (raise_default n w.id) lib.versions } ≡ after
      → Ensured n lib after
  added :
      count (of_book n) lib.versions ≡ 0
      → add_version (first_version n lib.next_version) lib ≡ after
      → Ensured n lib after

with_existing-Ensured :
    (n : ℕ) (lib : Library) (o : Option NovelVersion) (v : NovelVersion) (after : Library)
    → with_existing n lib o ≡ ok (v, after)
    → Ensured n lib after
with_existing-Ensured n lib (some w) v after e = same (ap (λ p. p.1) (ok-injective _ _ e))
with_existing-Ensured n lib none v after e =
    with_latest-Ensured
      (>>=-eq-ok (one_or_none (select (of_book n) lib.versions)) (with_latest n lib) (v, after) e)
  where
    with_latest-Ensured :
        (o : Option NovelVersion) × (one_or_none (select (of_book n) lib.versions) ≡ ok o)
          × (with_latest n lib o ≡ ok (v, after))
        → Ensured n lib after
    with_latest-Ensured (none, h, k) =
        added
          (omega (
            arith,
            one_or_none-length (select (of_book n) lib.versions) none h,
            length-select (of_book n) lib.versions,
          ))
          (ap (λ p. p.1) (ok-injective _ _ k))
    with_latest-Ensured (some w, h, k) =
        raised w
          (omega (
            arith,
            one_or_none-length (select (of_book n) lib.versions) (some w) h,
            length-select (of_book n) lib.versions,
          ))
          (ap (λ p. p.1) (ok-injective _ _ k))

pub ensure-Ensured :
    (n : ℕ) (lib : Library) (v : NovelVersion) (after : Library)
    → ensure_default_version n lib ≡ ok (v, after)
    → Ensured n lib after
unfolding ensure_default_version
ensure-Ensured n lib v after e =
    let r =
      >>=-eq-ok (one_or_none (select (default_of n) lib.versions)) (with_existing n lib) (v, after)
        e in
    with_existing-Ensured n lib r.0 v after r.2
