-- ===== src/Flags/Coherence.antt =====
-- The cache of app/core/feature_flags.py while one process reads and writes, one call after the
-- other.
use ai_jin_shu.Common.{
  ℕ, ◌+◌, ◌≤◌, ◌≡◌, ◌≢◌, refl, Bool, true, false, List, [], ◌∷◌, Option, none, some, String, all,
  arith, Option-cases, Result-cases, inl, inr, ap, subst, ◌∙◌,
}
use ai_jin_shu.Flags.{FlagRow, FlagDb, FlagChange, set_flag}
use ai_jin_shu.Flags.Cache.{
  FlagCache, Process, boot, Event, wait, read_flag, write_flag, remote, cached, store, load_all,
  invalidate_flags_cache, read_all, happens, run, reading, is_here,
}

-- What the cache would answer is what the database has. The clock has passed the five seconds.
abbrev pub IsCoherent : Process → Type 0
IsCoherent w =
    (5000 ≤ w.now) × ((v : List FlagRow) → cached w.now w.cache ≡ some v → v ≡ load_all w.db.rows)

pub cached-later :
    (now d : ℕ) (c : FlagCache) (v : List FlagRow)
    → cached (now + d) c ≡ some v
    → cached now c ≡ some v
cached-later now d c v h = ground arith

invalidated-missed :
    (n : String) (now : ℕ) (c : FlagCache) (v : List FlagRow)
    → 5000 ≤ now
    → cached now (invalidate_flags_cache (some n) c) ≢ some v
invalidated-missed n now c v t h = ground arith

pub cached-store :
    (now : ℕ) (rows v : List FlagRow) → cached now (store now rows) ≡ some v → v ≡ rows
cached-store now [] v h = ground arith
cached-store now (r ∷ rows) v h = ground arith

pub read_all-kept :
    (now : ℕ) (db : Option (List FlagRow)) (c : FlagCache) (v : List FlagRow)
    → cached now c ≡ some v
    → read_all now db c ≡ (some v, c)
unfolding read_all
read_all-kept now db c v e = rw (e, read_all) refl

pub read_all-missed :
    (now : ℕ) (rows : List FlagRow) (c : FlagCache)
    → cached now c ≡ none
    → read_all now (some rows) c ≡ (some (load_all rows), store now (load_all rows))
unfolding read_all
read_all-missed now rows c e = rw (e, read_all) refl

pub read_all-down : (now : ℕ) (c : FlagCache) → (read_all now none c).1 ≡ c
unfolding read_all
read_all-down now c = elim (Option-cases (cached now c)) [
  | inl e ↦ rw (e, read_all) refl
  | inr (v, e) ↦ rw (e, read_all) refl
]

module _ (strip : String → String) where
  read_flag-IsCoherent :
      (up : Bool) (w : Process) → IsCoherent w → IsCoherent (happens strip (read_flag up) w)
  unfolding happens
  read_flag-IsCoherent true w h = (
    h.0,
    λ u k. elim (Option-cases (cached w.now w.cache)) [
      | inr (v, e) ↦ h.1 u (
          subst (λ r. cached w.now r.1 ≡ some u) (read_all-kept w.now (some w.db.rows) w.cache v e)
            k)
      | inl e ↦
          cached-store w.now (load_all w.db.rows) u
            (subst (λ r. cached w.now r.1 ≡ some u) (read_all-missed w.now w.db.rows w.cache e) k)
    ],
  )
  read_flag-IsCoherent false w h =
      (h.0, λ u k. h.1 u (subst (λ c. cached w.now c ≡ some u) (read_all-down w.now w.cache) k))

  write_flag-IsCoherent :
      (n : String) (c : FlagChange) (w : Process)
      → IsCoherent w
      → IsCoherent (happens strip (write_flag n c) w)
  unfolding happens
  write_flag-IsCoherent n c w h = elim (Result-cases (set_flag strip n c w.db)) [
    | inl (r, e) ↦ rw e (h.0, λ v k. absurd (invalidated-missed n w.now w.cache v h.0 k))
    | inr (x, e) ↦ rw e h
  ]

  happens-IsCoherent :
      (e : Event) (w : Process) → is_here e ≡ true → IsCoherent w → IsCoherent (happens strip e w)
  unfolding happens
  happens-IsCoherent (wait d) w t h = (omega arith, λ v k. h.1 v (cached-later w.now d w.cache v k))
  happens-IsCoherent (read_flag up) w t h = read_flag-IsCoherent up w h
  happens-IsCoherent (write_flag n c) w t h = write_flag-IsCoherent n c w h
  happens-IsCoherent (remote rows) w t h = ground arith

  run-IsCoherent :
      (es : List Event) (w : Process)
      → all is_here es ≡ true
      → IsCoherent w
      → IsCoherent (run strip es w)
  unfolding run
  run-IsCoherent [] w t h = h
  run-IsCoherent (e ∷ es) w t h =
      run-IsCoherent es (happens strip e w) (ground arith) (happens-IsCoherent e w (ground arith) h)

reading-IsCoherent : (w : Process) → IsCoherent w → reading w ≡ some (load_all w.db.rows)
reading-IsCoherent w h = elim (Option-cases (cached w.now w.cache)) [
  | inl e ↦ ap (λ r. r.0) (read_all-missed w.now w.db.rows w.cache e)
  | inr (v, e) ↦
      ap (λ r. r.0) (read_all-kept w.now (some w.db.rows) w.cache v e) ∙ ap some (h.1 v e)
]

-- Where no other process changes the flags and no calls overlap, a read returns the flags of the
-- database, without those that have an empty name: whatever reads, writes and time there were since
-- the process started, which was five seconds or more after the zero of its clock.
pub run-reading :
    (strip : String → String) (es : List Event) (now : ℕ) (db : FlagDb)
    → 5000 ≤ now
    → all is_here es ≡ true
    → reading (run strip es (boot now db)) ≡ some (load_all (run strip es (boot now db)).db.rows)
run-reading strip es now db t h =
    reading-IsCoherent (run strip es (boot now db))
      (run-IsCoherent strip es (boot now db) h (t, λ v k. ground arith))
