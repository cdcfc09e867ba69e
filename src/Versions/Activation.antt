-- ===== src/Versions/Activation.antt =====
-- The activation of a version of a novel, and what is the default version afterwards.
use ai_jin_shu.Common.{
  ℕ, ◌≤◌, ◌≡◌, refl, ap, ◌∙◌, Bool, true, ◌&&◌, some, List, [], ◌∷◌, map, arith, select, Bool-cases,
  inl, inr, ok, subst,
}
use ai_jin_shu.Common.Table.{find, find-passes, count, weight}
use ai_jin_shu.Versions.{
  NovelVersion, Library, has_version_id, of_book, default_of, set_default_row, with_default,
  ensure_default_version, version_of, activate_version,
}
use ai_jin_shu.Versions.Counts.{count-le}
use ai_jin_shu.Versions.Default.{Reach, Reach-IdOnce, activate-inversion, activated_from}

select-map :
    (q r : NovelVersion → Bool) (f : NovelVersion → NovelVersion) (vs : List NovelVersion)
    → ((v : NovelVersion) → q (f v) ≡ r v)
    → select q (map f vs) ≡ map f (select r vs)
select-map q r f [] h = refl
select-map q r f (v ∷ vs) h = elim (Bool-cases (r v)) [
  | inl e ↦ rw e (rw (h v ∙ e) (ap (λ ws. f v ∷ ws) (select-map q r f vs h)))
  | inr e ↦ rw e (rw (h v ∙ e) (select-map q r f vs h))
]

select-none : (p : NovelVersion → Bool) (vs : List NovelVersion) → count p vs ≡ 0 → select p vs ≡ []
select-none p [] h = refl
select-none p (v ∷ vs) h = ground (arith, select-none p vs)

select-single :
    (p : NovelVersion → Bool) (vs : List NovelVersion) (v : NovelVersion)
    → find p vs ≡ some v
    → count p vs ≤ 1
    → select p vs ≡ v ∷ []
select-single p [] v h k = ground arith
select-single p (w ∷ vs) v h k = elim (Bool-cases (p w)) [
  | inl e ↦ rw e (ground (arith, select-none p vs))
  | inr e ↦ rw e (select-single p vs v (rw e at h) (ground arith))
]

abbrev asked : ℕ → ℕ → NovelVersion → Bool
asked n i v = has_version_id i v && of_book n v

default_of-set : (n i : ℕ) (v : NovelVersion) → default_of n (set_default_row n i v) ≡ asked n i v
default_of-set n i v = ground arith

asked-le : (n i : ℕ) (v : NovelVersion) → weight (asked n i) v ≤ weight (has_version_id i) v
asked-le n i v = ground arith

-- The rows that are the default of the novel after the activation.
select-activated :
    (n i : ℕ) (vs : List NovelVersion) (w : NovelVersion)
    → find (asked n i) vs ≡ some w
    → count (has_version_id i) vs ≤ 1
    → select (default_of n) (map (set_default_row n i) vs) ≡ with_default i w ∷ []
select-activated n i vs w h k =
    let once = count-le (asked n i) (has_version_id i) vs (asked-le n i) in
    let single = select-single (asked n i) vs w h (omega arith) in
    select-map (default_of n) (asked n i) (set_default_row n i) vs (default_of-set n i)
    ∙ rw single (
        let passes = find-passes (asked n i) vs w h in
        let mine : of_book n w ≡ true = ground arith in rw mine refl)

ensure-activated :
    (n i : ℕ) (lib : Library) (w : NovelVersion)
    → version_of n i lib ≡ some w
    → count (has_version_id i) lib.versions ≤ 1
    → ensure_default_version n (activated_from n i lib)
      ≡ ok (with_default i w, activated_from n i lib)
unfolding ensure_default_version
ensure-activated n i lib w h k = rw (select-activated n i lib.versions w h k) refl

-- After a version of a novel was activated it is the novel's default: asking for the default version
-- returns it, and changes nothing.
pub activate-ensure :
    {lib : Library} (n i : ℕ) (v : NovelVersion) (after : Library)
    → Reach lib
    → activate_version n i lib ≡ ok (v, after)
    → ensure_default_version n after ≡ ok (v, after)
activate-ensure {lib} n i v after r e =
    let (w, h, q, p) = activate-inversion n i lib v after e in
    let once = Reach-IdOnce r i in
    let same : ensure_default_version n (activated_from n i lib) ≡ ok (v, activated_from n i lib) =
      subst
        (λ x. ensure_default_version n (activated_from n i lib) ≡ ok (x, activated_from n i lib)) q
        (ensure-activated n i lib w h (ground arith)) in
    subst (λ x. ensure_default_version n x ≡ ok (v, x)) p same
