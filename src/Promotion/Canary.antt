-- ===== src/Promotion/Canary.antt =====
-- What a decision of app/services/cv/promotion_engine.py makes of the flag's evaluation in
-- app/core/feature_flags.py.
use ai_jin_shu.Common.{
  ℕ, ◌<◌, ◌≡◌, ◌≢◌, refl, true, false, String, Option, some, any, ◌==◌, arith, str_eq, ok,
}
use ai_jin_shu.Common.Table.{find}
use ai_jin_shu.Flags.{
  FlagDb, FlagState, named, set_flag, changed, is_enabled, get_flag_state, default_state, before_of,
  stored,
}
use ai_jin_shu.Flags.Rollout.{find-store_row, set_flag-ok}
use ai_jin_shu.Common.{or_else}
use ai_jin_shu.Promotion.{promote, rollback, hold, FlagPolicy, SliSnapshot, Phase}
use ai_jin_shu.Promotion.Decision.{PromotionDecision, decide}
use ai_jin_shu.Promotion.Apply.{PromotionDb, evaluate_flag, sync_flag, flag_change, writes_flag}

module _ (strip : String → String) (n reason : String) (d : PromotionDecision) (db : FlagDb)
    (named_flag : str_eq n "" ≡ false) (a_reason : str_eq (strip reason) "" ≡ false)
    (an_actor : str_eq (strip "cv_watchdog") "" ≡ false) (percent : d.next_canary_pct < 101) where
  abbrev old_state : FlagState
  old_state = or_else (before_of (find (named n) db.rows)) default_state

  abbrev new_state : FlagState
  new_state = changed (flag_change reason d) old_state

  set_flag_ok :
      set_flag strip n (flag_change reason d) db
      ≡ ok (new_state, stored strip n (flag_change reason d) db new_state)
  set_flag_ok =
      set_flag-ok strip n (flag_change reason d) db named_flag a_reason an_actor (ground arith) refl

  after_sync :
      writes_flag d.verdict ≡ true
      → get_flag_state (some (sync_flag strip n reason d db).rows) n ≡ some new_state
  unfolding sync_flag get_flag_state
  after_sync w = rw (w, set_flag_ok, named_flag) (rw (find-store_row n new_state db.rows) refl)

  -- After a promotion the flag is on for every novel, whatever its bucket: the evaluation falls
  -- through to `enabled`, which the promotion sets at any percentage above 0.
  pub promotion_enables_all :
      (digest : ℕ → ℕ) (novel : Option ℕ)
      → d.verdict ≡ promote
      → 0 < d.next_canary_pct
      → is_enabled digest (some (sync_flag strip n reason d db).rows) n novel ≡ true
  unfolding is_enabled changed
  promotion_enables_all digest novel v p = rw (after_sync (ground arith), is_enabled) (ground arith)

  -- After a rollback to 0 percent the flag is off for every novel outside the allow list.
  pub rollback_disables :
      (digest : ℕ → ℕ) (i : ℕ)
      → d.verdict ≡ rollback
      → d.next_canary_pct ≡ 0
      → is_enabled digest (some (sync_flag strip n reason d db).rows) n (some i)
        ≡ any (λ x. x == i) old_state.novel_allowlist
  unfolding is_enabled changed
  rollback_disables digest i v p = rw (after_sync (ground arith), is_enabled) (ground arith)

decide-pct-le :
    (policy : FlagPolicy) (s : SliSnapshot) (p : Phase) (pct : ℕ)
    → (decide policy s p pct).verdict ≢ hold
    → (decide policy s p pct).next_canary_pct < 101
unfolding decide
decide-pct-le policy s p pct h = ground arith

module _ (strip : String → String) (reason : PromotionDecision → String) (policy : FlagPolicy)
    (s : SliSnapshot) (now : ℕ) (n : String) (db : PromotionDb) (named_flag : str_eq n "" ≡ false)
    (a_reason : (d : PromotionDecision) → str_eq (strip (reason d)) "" ≡ false)
    (an_actor : str_eq (strip "cv_watchdog") "" ≡ false) where
  abbrev result : PromotionDecision × PromotionDb
  result = evaluate_flag strip reason policy s now n db

  -- Once an evaluation of a flag, whose name and reason are not empty, promotes it to a percentage
  -- above 0, the flag is on for every novel, whatever its bucket: the canary reaches all traffic.
  pub canary_reaches_all :
      (digest : ℕ → ℕ) (novel : Option ℕ)
      → result.0.verdict ≡ promote
      → 0 < result.0.next_canary_pct
      → is_enabled digest (some result.1.flags.rows) n novel ≡ true
  unfolding evaluate_flag
  canary_reaches_all digest novel v p =
      promotion_enables_all strip n (reason result.0) result.0 db.flags named_flag (a_reason _)
        an_actor (decide-pct-le policy s _ _ (λ h. cc)) digest novel v p

  -- Once an evaluation rolls a flag, whose name and reason are not empty, back, the flag is on for
  -- exactly the novels of its allow list.
  pub rollback_leaves_allowlist :
      (digest : ℕ → ℕ) (i : ℕ)
      → result.0.verdict ≡ rollback
      → is_enabled digest (some result.1.flags.rows) n (some i)
        ≡ any
            (λ x. x == i)
            (or_else (before_of (find (named n) db.flags.rows)) default_state).novel_allowlist
  unfolding evaluate_flag
  rollback_leaves_allowlist digest i v =
      rollback_disables strip n (reason result.0) result.0 db.flags named_flag (a_reason _) an_actor
        (decide-pct-le policy s _ _ (λ h. cc)) digest i v (unfold decide in ground arith)
