-- ===== src/Flags/Keys.antt =====
-- Which keys an entry of the flags' yaml files, and a row that `set_flag` of app/core/feature_flags.py
-- has written, have.
use ai_jin_shu.Common.{◌≡◌, Bool, true, false, ◌||◌, String, arith, str_eq, eq_iff}
use ai_jin_shu.Json.{Json, Fields, end, field, set_key}
use ai_jin_shu.Json.Merge.{has}
use ai_jin_shu.Flags.{update, overrides_controlled}
use ai_jin_shu.Flags.Registry.{YamlState, target_extra, default_extra, entries_within}

has-set_key :
    (k j : String) (v : Json) (d : Fields) → has k (set_key j v d) ≡ (str_eq j k || has k d)
unfolding set_key
has-set_key k j v end = ground arith
has-set_key k j v (field i w d) =
    ground (arith, has-set_key k j v d, eq_iff i j, eq_iff j k, eq_iff i k)

pub has-update : (k : String) (d e : Fields) → has k (update d e) ≡ (has k d || has k e)
has-update k d end = ground arith
has-update k d (field j v e) = ground (arith, has-update k (set_key j v d) e, has-set_key k j v d)

pub has-entries_within :
    (same : Json → Json → Bool) (k : String) (d e : Fields)
    → entries_within same d e ≡ true
    → has k d ≡ true
    → has k e ≡ true
has-entries_within same k end e h t = ground arith
has-entries_within same k (field j v d) e h t =
    ground (arith, has-entries_within same k d e, eq_iff j k)

pub target_extra-overrides :
    (y : YamlState)
    → overrides_controlled y.extra ≡ false
    → overrides_controlled (target_extra y) ≡ false
target_extra-overrides y h =
    rw
      (
        has-update "enabled" default_extra y.extra,
        has-update "rollout_pct" default_extra y.extra,
        has-update "novel_allowlist" default_extra y.extra,
      )
      h
