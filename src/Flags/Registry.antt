-- ===== src/Flags/Registry.antt =====
-- The sync of the flags' yaml files to the database: `apply_flag_state_from_yaml` of
-- app/core/feature_flags.py and `sync_flags_from_yaml` of app/tasks/feature_flags.py. The files are
-- read already; the entry of a flag is its three controlled keys and the others.
use ai_jin_shu.Common.{
  ℕ, Bool, true, false, not, ◌&&◌, Option, none, some, String, List, [], ◌∷◌, ◌==◌, or_else, ok,
  err, Result, ◌>>=◌, if◌then◌else◌,
}
use ai_jin_shu.Common.Int.{ℤ, pos, leb_ℤ}
use ai_jin_shu.Common.Table.{find}
use ai_jin_shu.Json.{Json, Fields, end, field, null, text, arr, nil, get}
use ai_jin_shu.Json.Merge.{has}
use ai_jin_shu.Flags.{FlagState, FlagDb, FlagChange, FlagError, named, set_flag, update, before_of}

pub record YamlState : Type 0 where
  pub enabled : Option Bool
  pub rollout_pct : Option ℤ
  pub novel_allowlist : Option (List ℕ)
  pub extra : Fields

-- The other keys of `_DEFAULT_FLAG_STATE`.
abbrev pub default_extra : Fields
default_extra = field "owner" (text "team:unassigned") (
    field "purpose" (text "") (
      field "created_at" null (
        field "target_full_rollout_at" null
          (field "expected_removal_at" null (field "depends_on" (arr nil) end)))))

abbrev pub target_extra : YamlState → Fields
target_extra y = update default_extra y.extra

-- The call of `set_flag` for the target.
abbrev pub yaml_change : YamlState → FlagChange
yaml_change y = record {
  enabled = some (or_else y.enabled false);
  rollout_pct = some (or_else y.rollout_pct (pos 0));
  novel_allowlist = some (or_else y.novel_allowlist []);
  extra = target_extra y;
  changed_by = "yaml_sync";
  reason = "yaml→db sync (presets/flags/)";
}

abbrev pub same_bool : Bool → Bool → Bool
same_bool true b = b
same_bool false b = not b

abbrev pub same_ids : List ℕ → List ℕ → Bool
same_ids [] [] = true
same_ids [] (y ∷ ys) = false
same_ids (x ∷ xs) [] = false
same_ids (x ∷ xs) (y ∷ ys) = x == y && same_ids xs ys

-- Every entry of the first dict is one of the second; `same` is Python's `==` on values.
abbrev pub entries_within : (Json → Json → Bool) → Fields → Fields → Bool
entries_within same end e = true
entries_within same (field k v d) e = (has k e && same v (get k e)) && entries_within same d e

-- `before == target`: a flag with no row has no keys. A row has the keys of the default, since
-- `set_flag` writes them.
abbrev pub equals_target : (Json → Json → Bool) → Option FlagState → YamlState → Bool
equals_target same none y = false
equals_target same (some s) y =
    let d = update default_extra s.extra in
    let pct = or_else y.rollout_pct (pos 0) in
    same_bool s.enabled (or_else y.enabled false)
    && (leb_ℤ (pos s.rollout_pct) pct && leb_ℤ pct (pos s.rollout_pct))
    && same_ids s.novel_allowlist (or_else y.novel_allowlist [])
    && (entries_within same d (target_extra y) && entries_within same (target_extra y) d)

-- `apply_flag_state_from_yaml`: `none` where the row is left as it is.
unfoldable pub apply_flag_state_from_yaml :
    (String → String)
    → (Json → Json → Bool)
    → String
    → YamlState
    → FlagDb
    → Result FlagError (Option FlagState × FlagDb)
apply_flag_state_from_yaml strip same n y db =
    if equals_target same (before_of (find (named n) db.rows)) y
    then ok (none, db)
    else do (s, db') ← set_flag strip n (yaml_change y) db; ok (some s, db')

pub data SyncResult : Type 0 where
  synced skipped failed : SyncResult

abbrev pub sync_result : Option FlagState → SyncResult
sync_result none = skipped
sync_result (some s) = synced

-- `sync_flags_from_yaml`: an exception is logged, and the other flags go on.
unfoldable pub sync_flags_from_yaml :
    (String → String)
    → (Json → Json → Bool)
    → List (String × YamlState)
    → FlagDb
    → List (String × SyncResult) × FlagDb
unfolding apply_flag_state_from_yaml
sync_flags_from_yaml strip same [] db = ([], db)
sync_flags_from_yaml strip same ((n, y) ∷ states) db =
    let (r, db₁) : SyncResult × FlagDb = elim (apply_flag_state_from_yaml strip same n y db) [
      | ok (s, db') ↦ (sync_result s, db')
      | err e ↦ (failed, db)
    ] in
    let (summary, db₂) = sync_flags_from_yaml strip same states db₁ in ((n, r) ∷ summary, db₂)
