-- ===== src/Storyboards/Created.antt =====
-- A project after a run of it, or of another, was created.
use ai_jin_shu.Common.{
  ℕ, ◌≡◌, refl, ap, subst, true, false, some, String, List, [], ◌∷◌, ◌++◌, suc, arith, str_eq, ◌==◌,
  any, Bool-cases, Option-cases, ◌⊎◌, inl, inr, ok, err, Result-cases, ok-injective, >>=-eq-ok, ltb,
  is_some,
}
use ai_jin_shu.Common.Table.{find, put, find-passes}
use ai_jin_shu.Versions.{ensure_default_version}
use ai_jin_shu.Storyboards.{StoryboardProject, StoryboardRun, Studio, get_project}
use ai_jin_shu.Storyboards.Runs.{
  RunRequest, new_run, started_run, create_new_run, is_active_of, first_lane,
  create_run_and_dispatch, start_run, repeated,
}
use ai_jin_shu.Storyboards.Lanes.{
  preflight_required, ensure_project_source_version, normalize_lanes,
}
use ai_jin_shu.Storyboards.Waiting.{
  is_waiting, IsWaiting, put-IsWaiting, keeps-IsWaiting, add_lanes-projects,
}

pub waiting-refused :
    (strip : String → String) (q : RunRequest) (i : ℕ) (s : Studio)
    → IsWaiting i s
    → start_run strip q i s ≡ err preflight_required
unfolding start_run
waiting-refused strip q i s h = elim (Option-cases (get_project i s)) [
  | inl e ↦ absurd (let x = rw e at h in cc)
  | inr (p, e) ↦
      rw (e, start_run)
        (let fails : str_eq p.status "preflight_passed" ≡ false =
            let x = rw e at h in ground arith in
          rw (fails, create_run_and_dispatch) refl)
]

-- The source version of a project is found without a change of its status.
source-project :
    (p : StoryboardProject) (s : Studio) (source : ℕ) (s' : Studio)
    → ensure_project_source_version p s ≡ ok (source, s')
    → (s.projects ≡ s'.projects)
      ⊎ ((n : ℕ) × (put (λ q. q.id == p.id) (record p { source_novel_version_id = n }) s.projects
            ≡ s'.projects))
unfolding ensure_project_source_version
source-project p s source s' k = elim (Bool-cases (ltb 0 p.source_novel_version_id)) [
  | inl e ↦ inl (ap (λ x. x.1.projects) (ok-injective _ _ (rw e at k)))
  | inr e ↦ elim (Result-cases (ensure_default_version p.novel_id s.library)) [
    | inl ((v, library), g) ↦
        inr (v.id, ap (λ x. x.1.projects) (ok-injective _ _ (rw g at (rw e at k))))
    | inr (x, g) ↦ absurd (let y = rw g at (rw e at k) in cc)
  ]
]

abbrev IsThere : ℕ → List StoryboardProject → Type 0
IsThere i ps = is_some (find (λ p. p.id == i) ps) ≡ true

put-IsThere :
    (i : ℕ) (q : StoryboardProject) (ps : List StoryboardProject)
    → IsThere i ps
    → IsThere i (put (λ p. p.id == q.id) q ps)
put-IsThere i q [] h = h
put-IsThere i q (p ∷ ps) h = ground (arith, put-IsThere i q ps)

put-waits :
    (q : StoryboardProject) (ps : List StoryboardProject)
    → is_waiting (some q) ≡ true
    → IsThere q.id ps
    → is_waiting (find (λ p. p.id == q.id) (put (λ p. p.id == q.id) q ps)) ≡ true
put-waits q [] o h = ground arith
put-waits q (p ∷ ps) o h = ground (arith, put-waits q ps o)

source-IsThere :
    (i : ℕ) (p : StoryboardProject) (s : Studio) (source : ℕ) (s' : Studio)
    → ensure_project_source_version p s ≡ ok (source, s')
    → IsThere i s.projects
    → IsThere i s'.projects
source-IsThere i p s source s' k h = elim (source-project p s source s' k) [
  | inl e ↦ subst (IsThere i) e h
  | inr (n, e) ↦
      subst (IsThere i) e (put-IsThere i (record p { source_novel_version_id = n }) s.projects h)
]

source-IsWaiting :
    (i : ℕ) (p : StoryboardProject) (s : Studio) (source : ℕ) (s' : Studio)
    → ensure_project_source_version p s ≡ ok (source, s')
    → (p.id == i) ≡ false
    → IsWaiting i s
    → IsWaiting i s'
source-IsWaiting i p s source s' k o h = elim (source-project p s source s' k) [
  | inl e ↦ keeps-IsWaiting i s s' e h
  | inr (n, e) ↦
      subst (λ ps. is_waiting (find (λ q. q.id == i) ps) ≡ true) e
        (put-IsWaiting i (record p { source_novel_version_id = n }) s.projects (inl o) h)
]

-- What a run that was created has passed, and what it leaves.
create-inversion :
    (strip : String → String) (q : RunRequest) (p : StoryboardProject) (s : Studio)
    (r : StoryboardRun) (s' : Studio)
    → create_new_run strip q p s ≡ ok (r, s')
    → (source : ℕ) × (t : Studio) × (ensure_project_source_version p s ≡ ok (source, t))
      × (started_run strip q p source t ≡ s')
unfolding create_new_run
create-inversion strip q p s r s' k = elim (Bool-cases (any (is_active_of p.id) s.runs)) [
  | inl e ↦ absurd (let x = rw e at k in cc)
  | inr e ↦
      let ((source, t), g, f) =
        >>=-eq-ok (ensure_project_source_version p s)
          (λ x. ok (new_run q p x.1, started_run strip q p x.0 x.1)) (r, s') (rw e at k) in
      (source, t, g, ap (λ x. x.1) (ok-injective _ _ f))
]

started-projects :
    (strip : String → String) (q : RunRequest) (p : StoryboardProject) (source : ℕ) (t : Studio)
    → put
        (λ x. x.id == p.id)
        (record p {
          source_novel_version_id = source;
          status = "generating";
          active_lane = first_lane (normalize_lanes strip p.output_lanes) p.active_lane;
        })
        t.projects
      ≡ (started_run strip q p source t).projects
started-projects strip q p source t = ap (put (λ x. x.id == p.id) _) (
    add_lanes-projects q (new_run q p t) source (normalize_lanes strip p.output_lanes)
      (record t { runs = t.runs ++ new_run q p t ∷ []; next_run = suc t.next_run }))

-- The project of a run that was created waits for its next preflight.
pub create-IsWaiting :
    (strip : String → String) (q : RunRequest) (p : StoryboardProject) (s : Studio)
    (r : StoryboardRun) (s' : Studio)
    → create_new_run strip q p s ≡ ok (r, s')
    → get_project p.id s ≡ some p
    → IsWaiting p.id s'
create-IsWaiting strip q p s r s' k h =
    let (source, t, g, f) = create-inversion strip q p s r s' k in
    let there = source-IsThere p.id p s source t g (rw h refl) in
    subst (IsWaiting p.id) f (
      subst (λ ps. is_waiting (find (λ x. x.id == p.id) ps) ≡ true)
        (started-projects strip q p source t) (put-waits _ t.projects refl there))

created-elsewhere :
    (strip : String → String) (q : RunRequest) (i : ℕ) (p : StoryboardProject) (s : Studio)
    (r : StoryboardRun) (s' : Studio)
    → create_new_run strip q p s ≡ ok (r, s')
    → (p.id == i) ≡ false
    → IsWaiting i s
    → IsWaiting i s'
created-elsewhere strip q i p s r s' k o h =
    let (source, t, g, f) = create-inversion strip q p s r s' k in
    let waits = source-IsWaiting i p s source t g o h in
    subst (IsWaiting i) f (
      subst (λ ps. is_waiting (find (λ x. x.id == i) ps) ≡ true)
        (started-projects strip q p source t) (put-IsWaiting i _ t.projects (inl o) waits))

requested-elsewhere :
    (strip : String → String) (q : RunRequest) (i : ℕ) (p : StoryboardProject) (s : Studio)
    (r : StoryboardRun) (s' : Studio)
    → create_run_and_dispatch strip q p s ≡ ok (r, s')
    → (p.id == i) ≡ false
    → IsWaiting i s
    → IsWaiting i s'
unfolding create_run_and_dispatch
requested-elsewhere strip q i p s r s' k o h =
    elim (Bool-cases (str_eq p.status "preflight_passed")) [
      | inr e ↦ absurd (let x = rw e at k in cc)
      | inl e ↦ elim (Option-cases (repeated p.id q.idempotency_key s)) [
        | inl f ↦ created-elsewhere strip q i p s r s' (rw f at (rw e at k)) o h
        | inr (x, f) ↦
            subst (IsWaiting i) (ap (λ y. y.1) (ok-injective _ _ (rw f at (rw e at k)))) h
      ]
    ]

pub start-IsWaiting :
    (strip : String → String) (q : RunRequest) (i j : ℕ) (s : Studio) (r : StoryboardRun)
    (s' : Studio)
    → start_run strip q j s ≡ ok (r, s')
    → IsWaiting i s
    → IsWaiting i s'
unfolding start_run
start-IsWaiting strip q i j s r s' k h = elim (Bool-cases (j == i)) [
  | inl e ↦
      let refused = waiting-refused strip q i s h in
      let same : j ≡ i = ground arith in absurd (let x = rw same at k in cc)
  | inr e ↦ elim (Option-cases (get_project j s)) [
    | inl f ↦ absurd (let x = rw (f, start_run) at k in cc)
    | inr (p, f) ↦
        let mine = find-passes (λ x. x.id == j) s.projects p f in
        requested-elsewhere strip q i p s r s' (rw (f, start_run) at k) (ground arith) h
  ]
]
