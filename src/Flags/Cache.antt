-- ===== src/Flags/Cache.antt =====
-- The cache of app/core/feature_flags.py in one process, and what its readers see while flags are
-- written. A time is `time.monotonic()` in whole milliseconds.
use ai_jin_shu.Common.{
  ℕ, ◌+◌, ◌-◌, Bool, true, false, not, ◌&&◌, List, [], ◌∷◌, Option, none, some, String, select,
  str_eq, ltb, if◌then◌else◌, Result, ok, err,
}
use ai_jin_shu.Flags.{FlagRow, FlagDb, FlagChange, FlagState, FlagError, Reading, set_flag}

pub record FlagCache : Type 0 where
  pub cache_ts : ℕ
  pub cache_value : List FlagRow

-- `_is_cache_fresh`
abbrev pub is_cache_fresh : ℕ → ℕ → Bool
is_cache_fresh now ts = ltb (now - ts) 5000

abbrev pub no_flags : List FlagRow → Bool
no_flags [] = true
no_flags (r ∷ rs) = false

-- `invalidate_flags_cache`
abbrev pub invalidate_flags_cache : Option String → FlagCache → FlagCache
invalidate_flags_cache none c = record { cache_ts = 0; cache_value = [] }
invalidate_flags_cache (some n) c = record {
  cache_ts = 0;
  cache_value = select (λ r. not (str_eq r.name n)) c.cache_value;
}

-- `_load_all_from_db`
abbrev pub load_all : List FlagRow → List FlagRow
load_all rows = select (λ r. not (str_eq r.name "")) rows

-- `_read_all` up to the load.
abbrev pub cached : ℕ → FlagCache → Reading
cached now c =
    if is_cache_fresh now c.cache_ts && not (no_flags c.cache_value)
    then some c.cache_value
    else none

-- The end of `_read_all`.
abbrev pub store : ℕ → List FlagRow → FlagCache
store now rows = record { cache_ts = now; cache_value = rows }

-- `_read_all` at the time `now`, on a database that can be read or not.
unfoldable pub read_all : ℕ → Option (List FlagRow) → FlagCache → Reading × FlagCache
read_all now db c = elim (cached now c) [
  | some v ↦ (some v, c)
  | none ↦ elim db [
    | none ↦ (none, c)
    | some rows ↦ (some (load_all rows), store now (load_all rows))
  ]
]

-- The process, with the database that it shares with others.
pub record Process : Type 0 where
  pub now : ℕ
  pub db : FlagDb
  pub cache : FlagCache

-- A process that starts: `_cache_ts` and `_cache_value` as the module sets them.
abbrev pub boot : ℕ → FlagDb → Process
boot now db = record { now = now; db = db; cache = record { cache_ts = 0; cache_value = [] } }

-- What happens one after the other: time passes, a flag is read on a database that answers or does
-- not, `set_flag` is called here, or another process changes the rows.
pub data Event : Type 0 where
  wait : ℕ → Event
  read_flag : Bool → Event
  write_flag : String → FlagChange → Event
  remote : List FlagRow → Event

-- `set_flag` with the call of `invalidate_flags_cache`; an error changes neither.
abbrev pub after_set : String → Process → Result FlagError (FlagState × FlagDb) → Process
after_set n w (err e) = w
after_set n w (ok r) = record w { db = r.1; cache = invalidate_flags_cache (some n) w.cache }

unfoldable pub happens : (String → String) → Event → Process → Process
happens strip (wait d) w = record w { now = w.now + d }
happens strip (read_flag up) w = record w {
  cache = (read_all w.now (if up then some w.db.rows else none) w.cache).1;
}
happens strip (write_flag n c) w = after_set n w (set_flag strip n c w.db)
happens strip (remote rows) w = record w { db = record w.db { rows = rows } }

unfoldable pub run : (String → String) → List Event → Process → Process
run strip [] w = w
run strip (e ∷ es) w = run strip es (happens strip e w)

-- What a read would return now.
abbrev pub reading : Process → Reading
reading w = (read_all w.now (some w.db.rows) w.cache).0

abbrev pub is_here : Event → Bool
is_here (remote rows) = false
is_here (wait d) = true
is_here (read_flag up) = true
is_here (write_flag n c) = true

-- `_read_all` up to the end of the load: the cache answers, or the flags are loaded.
abbrev pub begin_read : Process → Option (List FlagRow)
begin_read w = elim (cached w.now w.cache) [ some v ↦ none | none ↦ some (load_all w.db.rows) ]

-- The rest of `_read_all` at the time `later`: what was loaded is stored.
abbrev pub end_read : ℕ → Option (List FlagRow) → Process → Process
end_read later none w = record w { now = later }
end_read later (some rows) w = record w { now = later; cache = store later rows }

-- A read and a call of `set_flag` between its load and its store: `_cache_lock` is free during the
-- load.
abbrev pub overtaken : (String → String) → String → FlagChange → ℕ → Process → Process
overtaken strip n c later w =
    end_read later (begin_read w) (after_set n w (set_flag strip n c w.db))
