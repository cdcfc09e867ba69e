-- ===== src/Breaker/Trips.antt =====
-- When a breaker of app/core/llm_circuit_breaker.py opens.
use ai_jin_shu.Common.{ℕ, ◌+◌, ◌<◌, ◌≡◌, refl, true, false, List, [], ◌∷◌, leb, length, arith}
use ai_jin_shu.Breaker.{closed, open_, BreakerRecord, fresh_record, recorded, is_open}

-- Failed calls, at the given times.
abbrev pub fail_run : ℕ → List ℕ → BreakerRecord → BreakerRecord
fail_run limit [] r = r
fail_run limit (t ∷ ts) r = fail_run limit ts (recorded limit t false r)

stays_open :
    (limit : ℕ) (ts : List ℕ) (r : BreakerRecord)
    → r.state ≡ open_
    → (fail_run limit ts r).state ≡ open_
stays_open limit [] r h = h
stays_open limit (t ∷ ts) r h =
    stays_open limit ts (recorded limit t false r) (unfold recorded in ground arith)

fail_run_closed :
    (limit : ℕ) (ts : List ℕ) (r : BreakerRecord)
    → r.state ≡ closed
    → r.consecutive_failures < limit
    → is_open (fail_run limit ts r).state ≡ leb limit (r.consecutive_failures + length ts)
unfolding recorded
fail_run_closed limit [] r h k = ground arith
fail_run_closed limit (t ∷ ts) r h k =
    let r' = recorded limit t false r in
    ground (arith, stays_open limit ts r', fail_run_closed limit ts r')

-- A success closes the breaker and forgets its failures; from there exactly the `limit`-th failure
-- in a row opens it.
pub opens_at_threshold :
    (limit now : ℕ) (ts : List ℕ) (r : BreakerRecord)
    → 0 < limit
    → is_open (fail_run limit ts (recorded limit now true r)).state ≡ leb limit (length ts)
unfolding recorded
opens_at_threshold limit now ts r h = ground (arith, fail_run_closed limit ts fresh_record refl h)
