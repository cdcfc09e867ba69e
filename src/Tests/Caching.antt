-- ===== src/Tests/Caching.antt =====
-- Runs of the cache of the feature flags.
use ai_jin_shu.Common.{
  ok, arith, ◌≡◌, refl, Bool, true, false, List, [], ◌∷◌, none, some, String, any,
}
use ai_jin_shu.Json.{end}
use ai_jin_shu.Flags.{
  FlagState, FlagRow, FlagDb, FlagChange, named, default_state, is_enabled, set_flag, changed,
  get_flag_state, admits_novel,
}
use ai_jin_shu.Flags.Cache.{
  Process, Event, wait, read_flag, write_flag, remote, boot, happens, run, reading, read_all,
  load_all, overtaken,
}
use ai_jin_shu.Flags.Coherence.{run-reading}
use ai_jin_shu.Flags.Stale.{AllAlong, run-recent, overtaken-stale}

abbrev plain : String → String
plain s = s

abbrev switch : Bool → FlagChange
switch b = record {
  enabled = some b;
  rollout_pct = none;
  novel_allowlist = none;
  extra = end;
  changed_by = "ci:1";
  reason = "drill";
}

abbrev flag_row : Bool → FlagRow
flag_row b = record { name = "f"; state = record default_state { enabled = b } }

abbrev flag_db : FlagDb
flag_db = record { rows = flag_row true ∷ []; audit = [] }

abbrev process : Process
process = boot 9000 flag_db

abbrev switched_off : Process
switched_off = overtaken plain "f" (switch false) 9010 process

-- The database has the flag off, and the process has it on.
still_on : is_enabled (λ n. n) (reading (happens plain (wait 4000) switched_off)) "f" none ≡ true
unfolding is_enabled happens read_all set_flag changed get_flag_state admits_novel
still_on = refl

off_in_db : is_enabled (λ n. n) (some switched_off.db.rows) "f" none ≡ false
unfolding is_enabled happens read_all set_flag changed get_flag_state admits_novel
off_in_db = refl

abbrev off : FlagState
off = record default_state { enabled = false }

abbrev off_db : FlagDb
off_db = record {
  rows = flag_row false ∷ [];
  audit =
      record {
        flag_name = "f";
        changed_by = "ci:1";
        before_state = some (record default_state { enabled = true });
        after_state = off;
        reason = "drill";
      }
      ∷ [];
}

set_off : set_flag plain "f" (switch false) flag_db ≡ ok (off, off_db)
unfolding set_flag changed
set_off = refl

overtaken-stale_example :
    (reading (happens plain (wait 4000) switched_off) ≡ some (flag_row true ∷ []))
    × (get_flag_state (some (happens plain (wait 4000) switched_off).db.rows) "f" ≡ some off)
overtaken-stale_example =
    overtaken-stale plain "f" (switch false) 9010 4000 process off off_db refl set_off refl
      (omega arith)

abbrev here : List Event
here = read_flag true ∷ wait 1000 ∷ write_flag "f" (switch false) ∷ read_flag true ∷ []

run-reading_example :
    reading (run plain here process) ≡ some (load_all (run plain here process).db.rows)
run-reading_example = run-reading plain here 9000 flag_db (omega arith) refl

abbrev elsewhere : List Event
elsewhere = read_flag true ∷ wait 6000 ∷ remote (flag_row false ∷ []) ∷ []

abbrev HasFlag : List FlagRow → Type 0
HasFlag rows = any (named "f") rows ≡ true

always_there : AllAlong plain HasFlag elsewhere process
unfolding happens read_all
always_there = (refl, (refl, (refl, refl)))

run-recent_example :
    (v : List FlagRow) × (reading (run plain elsewhere process) ≡ some v) × HasFlag v
run-recent_example =
    run-recent plain HasFlag elsewhere process always_there (omega arith) (omega arith)
