-- ===== src/Flags/Stale.antt =====
-- How old the flags are that the cache of app/core/feature_flags.py answers with.
use ai_jin_shu.Common.{
  none, ok, ◌∙◌, ℕ, ◌+◌, ◌≤◌, ◌<◌, ◌≡◌, refl, Bool, true, false, List, [], ◌∷◌, some, String, arith,
  Option-cases, Result-cases, inl, inr, ap, subst, sym, ◌⊎◌,
}
use ai_jin_shu.Flags.{FlagRow, FlagDb, FlagState, FlagChange, get_flag_state, set_flag}
use ai_jin_shu.Flags.Cache.{
  FlagCache, Process, Event, wait, read_flag, write_flag, remote, cached, store, load_all, no_flags,
  happens, run, reading, overtaken, begin_read, end_read, after_set,
}
use ai_jin_shu.Flags.Rollout.{set_flag-get}
use ai_jin_shu.Flags.Coherence.{
  cached-later, cached-store, read_all-kept, read_all-missed, read_all-down,
}

-- The time that passes.
abbrev pub waited : List Event → ℕ
waited [] = 0
waited (wait d ∷ es) = d + waited es
waited (read_flag up ∷ es) = waited es
waited (write_flag n c ∷ es) = waited es
waited (remote rows ∷ es) = waited es

-- The flags of the database have a property before, between and after the events.
abbrev pub AllAlong : (String → String) → (List FlagRow → Type 0) → List Event → Process → Type 0
AllAlong strip P [] w = P (load_all w.db.rows)
AllAlong strip P (e ∷ es) w = P (load_all w.db.rows) × AllAlong strip P es (happens strip e w)

module _ (strip : String → String) (P : List FlagRow → Type 0) where
  AllAlong-now : (es : List Event) (w : Process) → AllAlong strip P es w → P (load_all w.db.rows)
  AllAlong-now [] w h = h
  AllAlong-now (e ∷ es) w h = h.0

  AllAlong-run :
      (es : List Event) (w : Process)
      → AllAlong strip P es w
      → P (load_all (run strip es w).db.rows)
  unfolding run
  AllAlong-run [] w h = h
  AllAlong-run (e ∷ es) w h = AllAlong-run es (happens strip e w) h.1

-- The cache is as old as a given time, or has the property.
abbrev IsOldOr : (List FlagRow → Type 0) → ℕ → Process → Type 0
IsOldOr P t w = (v : List FlagRow) → cached w.now w.cache ≡ some v → (w.cache.cache_ts ≤ t) ⊎ P v

module _ (strip : String → String) (P : List FlagRow → Type 0) (t : ℕ) where
  read_flag-IsOldOr :
      (up : Bool) (w : Process)
      → P (load_all w.db.rows)
      → IsOldOr P t w
      → IsOldOr P t (happens strip (read_flag up) w)
  unfolding happens
  read_flag-IsOldOr true w p h = elim (Option-cases (cached w.now w.cache)) [
    | inr (v, e) ↦
        subst (λ c. IsOldOr P t (record w { cache = c }))
          (sym (ap (λ r. r.1) (read_all-kept w.now (some w.db.rows) w.cache v e))) h
    | inl e ↦
        subst (λ c. IsOldOr P t (record w { cache = c }))
          (sym (ap (λ r. r.1) (read_all-missed w.now w.db.rows w.cache e)))
          (λ v k. inr (subst P (sym (cached-store w.now (load_all w.db.rows) v k)) p))
  ]
  read_flag-IsOldOr false w p h =
      subst (λ c. IsOldOr P t (record w { cache = c })) (sym (read_all-down w.now w.cache)) h

  write_flag-IsOldOr :
      (n : String) (c : FlagChange) (w : Process)
      → IsOldOr P t w
      → IsOldOr P t (happens strip (write_flag n c) w)
  unfolding happens
  write_flag-IsOldOr n c w h = elim (Result-cases (set_flag strip n c w.db)) [
    | inl (r, e) ↦ rw e (λ v k. inl (omega arith))
    | inr (x, e) ↦ rw e h
  ]

  happens-IsOldOr :
      (e : Event) (w : Process)
      → P (load_all w.db.rows)
      → IsOldOr P t w
      → IsOldOr P t (happens strip e w)
  unfolding happens
  happens-IsOldOr (wait d) w p h = λ v k. h v (cached-later w.now d w.cache v k)
  happens-IsOldOr (read_flag up) w p h = read_flag-IsOldOr up w p h
  happens-IsOldOr (write_flag n c) w p h = write_flag-IsOldOr n c w h
  happens-IsOldOr (remote rows) w p h = h

  run-IsOldOr :
      (es : List Event) (w : Process)
      → AllAlong strip P es w
      → IsOldOr P t w
      → IsOldOr P t (run strip es w)
  unfolding run
  run-IsOldOr [] w p h = h
  run-IsOldOr (e ∷ es) w p h =
      run-IsOldOr es (happens strip e w) p.1
        (happens-IsOldOr e w (AllAlong-now strip P (e ∷ es) w p) h)

write_flag-now :
    (strip : String → String) (n : String) (c : FlagChange) (w : Process)
    → (happens strip (write_flag n c) w).now ≡ w.now
unfolding happens
write_flag-now strip n c w = elim (Result-cases (set_flag strip n c w.db)) [
  | inl (r, e) ↦ rw e refl
  | inr (x, e) ↦ rw e refl
]

run-now :
    (strip : String → String) (es : List Event) (w : Process)
    → (run strip es w).now ≡ w.now + waited es
unfolding run happens
run-now strip [] w = omega arith
run-now strip (wait d ∷ es) w = omega (arith, run-now strip es (happens strip (wait d) w))
run-now strip (read_flag up ∷ es) w =
    omega (arith, run-now strip es (happens strip (read_flag up) w))
run-now strip (write_flag n c ∷ es) w =
    omega (arith, run-now strip es (happens strip (write_flag n c) w), write_flag-now strip n c w)
run-now strip (remote rows ∷ es) w = omega (arith, run-now strip es (happens strip (remote rows) w))

cached-recent :
    (now : ℕ) (c : FlagCache) (v : List FlagRow) → cached now c ≡ some v → now < c.cache_ts + 5000
cached-recent now c v h = ground arith

-- Where no calls overlap: after five seconds a read returns flags that have every property which
-- the flags of the database have had all that time, whatever this process and others did.
pub run-recent :
    (strip : String → String) (P : List FlagRow → Type 0) (es : List Event) (w : Process)
    → AllAlong strip P es w
    → w.cache.cache_ts ≤ w.now
    → 5000 ≤ waited es
    → (v : List FlagRow) × (reading (run strip es w) ≡ some v) × P v
run-recent strip P es w p old long =
    let after = run strip es w in
    elim (Option-cases (cached after.now after.cache)) [
      | inl e ↦ (
        load_all after.db.rows,
        ap (λ r. r.0) (read_all-missed after.now after.db.rows after.cache e),
        AllAlong-run strip P es w p,
      )
      | inr (v, e) ↦ (
        v,
        ap (λ r. r.0) (read_all-kept after.now (some after.db.rows) after.cache v e),
        elim (run-IsOldOr strip P w.now es w p (λ u k. inl old) v e) [
          | inl o ↦
              absurd (
                omega (arith, cached-recent after.now after.cache v e, run-now strip es w, o, long))
          | inr q ↦ q
        ],
      )
    ]

-- A read that the cache does not answer, and a call of `set_flag` that succeeds between its load and
-- its store: the database then holds the new state of the flag, but each read within the five
-- seconds after returns the flags from before the call, where there are any.
pub overtaken-stale :
    (strip : String → String) (n : String) (c : FlagChange) (later d : ℕ) (w : Process)
    (state : FlagState) (db : FlagDb)
    → cached w.now w.cache ≡ none
    → set_flag strip n c w.db ≡ ok (state, db)
    → no_flags (load_all w.db.rows) ≡ false
    → d < 5000
    → let after = happens strip (wait d) (overtaken strip n c later w) in
      (reading after ≡ some (load_all w.db.rows))
      × (get_flag_state (some after.db.rows) n ≡ some state)
unfolding happens
overtaken-stale strip n c later d w state db missed set h k =
    let old = load_all w.db.rows in
    let begun : begin_read w ≡ some old = rw (missed, begin_read) refl in
    let after : overtaken strip n c later w
        ≡ record w { now = later; db = db; cache = store later old } =
      ap (λ p. end_read later p (after_set n w (set_flag strip n c w.db))) begun
      ∙ ap (λ r. end_read later (some old) (after_set n w r)) set in
    (
      ap (λ x. reading (happens strip (wait d) x)) after
          ∙ ap (λ r. r.0)
              (read_all-kept (later + d) (some db.rows) (store later old) old (ground arith)),
      ap (λ x. get_flag_state (some x.db.rows) n) after ∙ set_flag-get strip n c state w.db db set,
    )
