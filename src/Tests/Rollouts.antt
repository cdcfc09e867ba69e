-- ===== src/Tests/Rollouts.antt =====
-- Runs of the feature flags and of their promotion.
use ai_jin_shu.Common.{
  str_eq, length, Bool, Option, ℕ, ◌≡◌, refl, true, false, String, none, some, [], ◌∷◌, ok, arith,
}
use ai_jin_shu.Common.Int.{pos}
use ai_jin_shu.Json.{Json, null, arr, nil, text, end, field}
use ai_jin_shu.Flags.{
  FlagState, FlagDb, FlagChange, get_flag_state, is_enabled, admits_novel, hash_bucket, set_flag,
}
use ai_jin_shu.Flags.Registry.{YamlState, apply_flag_state_from_yaml}
use ai_jin_shu.Flags.Restored.{target, sync-restores, sync-never_settles, after_syncs}
use ai_jin_shu.Promotion.{default_policy, SliSnapshot, promote, rollback}
use ai_jin_shu.Promotion.Decision.{PromotionDecision}
use ai_jin_shu.Promotion.Apply.{PromotionDb, evaluate_flag}
use ai_jin_shu.Promotion.Canary.{canary_reaches_all}

abbrev half : FlagState
half = record { enabled = false; rollout_pct = 50; novel_allowlist = 4 ∷ []; extra = end }

-- The bucket of novel `i` is `i` itself.
admitted : admits_novel (λ i. i) half (some 20) ≡ true
unfolding admits_novel hash_bucket
admitted = refl

abbrev flags : FlagDb
flags = record { rows = record { name = "new_writer"; state = half } ∷ []; audit = [] }

abbrev turn_on : FlagChange
turn_on = record {
  enabled = some true;
  rollout_pct = some (pos 80);
  novel_allowlist = none;
  extra = end;
  changed_by = "ops";
  reason = "trial";
}

abbrev written : FlagState
written = record { enabled = true; rollout_pct = 80; novel_allowlist = 4 ∷ []; extra = end }

abbrev flags_after : FlagDb
flags_after = record {
  rows = record { name = "new_writer"; state = written } ∷ [];
  audit =
      record {
        flag_name = "new_writer";
        changed_by = "ops";
        before_state = some half;
        after_state = written;
        reason = "trial";
      }
      ∷ [];
}

write_ok : set_flag (λ s. s) "new_writer" turn_on flags ≡ ok (written, flags_after)
unfolding set_flag
write_ok = refl

abbrev healthy : SliSnapshot
healthy = record { samples = 100; failure_rate = 1000; p95_latency_ms = none; burn_rate_1h = 0 }

abbrev failing : SliSnapshot
failing = record { samples = 100; failure_rate = 500000; p95_latency_ms = none; burn_rate_1h = 0 }

abbrev why : PromotionDecision → String
why d = "checked"

abbrev at_start : PromotionDb
at_start = record { states = []; flags = flags }

promoted :
    (evaluate_flag (λ s. s) why default_policy healthy 9 "new_writer" at_start).0.verdict ≡ promote
unfolding evaluate_flag
promoted = refl

canary_reaches_all_example :
    is_enabled
      (λ i. i)
      (some
        (evaluate_flag (λ s. s) why default_policy healthy 9 "new_writer" at_start).1.flags.rows)
      "new_writer"
      (some 99)
    ≡ true
unfolding evaluate_flag
canary_reaches_all_example =
    canary_reaches_all (λ s. s) why default_policy healthy 9 "new_writer" at_start refl (λ d. refl)
      refl (λ i. i) (some 99) promoted (omega arith)

rolled_back :
    (evaluate_flag (λ s. s) why default_policy failing 9 "new_writer" at_start).0.verdict ≡ rollback
unfolding evaluate_flag
rolled_back = refl

abbrev plain : String → String
plain s = s

abbrev value_equals : Json → Json → Bool
value_equals (text a) (text b) = str_eq a b
value_equals null null = true
value_equals (arr nil) (arr nil) = true
value_equals a b = false

-- The entry of the flag in the files.
abbrev entry : YamlState
entry = record { enabled = some true; rollout_pct = none; novel_allowlist = none; extra = end }

abbrev after_rollback : FlagDb
unfolding evaluate_flag
after_rollback = (evaluate_flag plain why default_policy failing 9 "new_writer" at_start).1.flags

rollback_holds : is_enabled (λ i. i) (some after_rollback.rows) "new_writer" (some 99) ≡ false
unfolding after_rollback is_enabled evaluate_flag get_flag_state set_flag
rollback_holds = refl

-- The sync makes the flag evaluate as its entry, which has it on.
sync-restores_example :
    (s : Option FlagState) × (db' : FlagDb) × (apply_flag_state_from_yaml plain value_equals
        "new_writer" entry after_rollback
      ≡ ok (s, db'))
    × ((digest : ℕ → ℕ) (novel : Option ℕ)
        → is_enabled digest (some db'.rows) "new_writer" novel
          ≡ is_enabled digest
              (some (record { name = "new_writer"; state = target entry } ∷ []))
              "new_writer"
              novel)
sync-restores_example =
    sync-restores plain value_equals "new_writer" entry refl refl refl refl refl after_rollback

-- An operator has left a note at the flag.
abbrev noted : FlagDb
noted = record {
  rows =
      record { name = "new_writer"; state = record half { extra = field "note" (text "slow") end } }
      ∷ [];
  audit = [];
}

sync-never_settles_example :
    length (after_syncs plain value_equals "new_writer" entry 60 noted).audit ≡ 60
sync-never_settles_example =
    sync-never_settles plain value_equals "new_writer" entry refl refl refl refl refl "note" refl
      noted
      (
        record {
          name = "new_writer";
          state = record half { extra = field "note" (text "slow") end };
        },
        refl,
        refl,
      )
      60
