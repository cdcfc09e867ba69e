-- ===== src/Flags/Restored.antt =====
-- What the sync of the yaml files (app/core/feature_flags.py, app/tasks/feature_flags.py) leaves of
-- the writes to a flag that the files do not know.
use ai_jin_shu.Common.{
  ℕ, suc, zero, ◌+◌, ◌≡◌, refl, sym, ap, ◌∙◌, Bool, true, false, ◌||◌, Option, none, some, String,
  List, [], ◌∷◌, or_else, ok, err, Result, arith, Bool-cases, Option-cases, inl, inr, str_eq,
  length, eq_refl, ==_iff,
}
use ai_jin_shu.Common.Int.{pos, pos_part}
use ai_jin_shu.Common.Table.{find, length-append_one}
use ai_jin_shu.Json.{Json}
use ai_jin_shu.Json.Merge.{has}
use ai_jin_shu.Flags.{
  FlagState, FlagRow, FlagDb, FlagError, named, update, before_of, is_enabled, admits_novel,
  get_flag_state, default_state, in_pct_range, overrides_controlled, changed, stored,
}
use ai_jin_shu.Flags.Rollout.{find-store_row, set_flag-ok}
use ai_jin_shu.Flags.Keys.{has-update, has-entries_within, target_extra-overrides}
use ai_jin_shu.Flags.Registry.{
  YamlState, target_extra, yaml_change, default_extra, same_ids, equals_target,
  apply_flag_state_from_yaml,
}

-- The state of a flag that its entry in the files describes.
abbrev pub target : YamlState → FlagState
target y = record {
  enabled = or_else y.enabled false;
  rollout_pct = pos_part (or_else y.rollout_pct (pos 0));
  novel_allowlist = or_else y.novel_allowlist [];
  extra = target_extra y;
}

same_ids-eq : (xs ys : List ℕ) → same_ids xs ys ≡ true → xs ≡ ys
same_ids-eq [] [] h = refl
same_ids-eq [] (y ∷ ys) h = ground arith
same_ids-eq (x ∷ xs) [] h = ground arith
same_ids-eq (x ∷ xs) (y ∷ ys) h = ground (arith, same_ids-eq xs ys, ==_iff x y)

-- The controlled keys are those of the target.
abbrev HasKeys : YamlState → FlagState → Type 0
HasKeys y s =
    (s.enabled ≡ (target y).enabled)
    × (s.rollout_pct ≡ (target y).rollout_pct)
    × (s.novel_allowlist ≡ (target y).novel_allowlist)

abbrev ReadsAs : String → YamlState → List FlagRow → Type 0
ReadsAs n y rows = (s : FlagState) × (get_flag_state (some rows) n ≡ some s) × HasKeys y s

equals_target-HasKeys :
    (same : Json → Json → Bool) (s : FlagState) (y : YamlState)
    → equals_target same (some s) y ≡ true
    → HasKeys y s
equals_target-HasKeys same s y h = (
  ground arith,
  ground arith,
  same_ids-eq s.novel_allowlist (or_else y.novel_allowlist []) (ground arith),
)

admits_novel-keys :
    (digest : ℕ → ℕ) (s t : FlagState) (novel : Option ℕ)
    → s.rollout_pct ≡ t.rollout_pct
    → s.novel_allowlist ≡ t.novel_allowlist
    → admits_novel digest s novel ≡ admits_novel digest t novel
unfolding admits_novel
admits_novel-keys digest s t none q a = refl
admits_novel-keys digest s t (some i) q a = ground arith

is_enabled-row :
    (digest : ℕ → ℕ) (n : String) (rows : List FlagRow) (s : FlagState) (novel : Option ℕ)
    → get_flag_state (some rows) n ≡ some s
    → is_enabled digest (some rows) n novel ≡ (admits_novel digest s novel || s.enabled)
unfolding is_enabled
is_enabled-row digest n rows s novel r = rw (r, is_enabled) (ground arith)

only_row :
    (n : String) (s : FlagState)
    → str_eq n "" ≡ false
    → get_flag_state (some (record { name = n; state = s } ∷ [])) n ≡ some s
unfolding get_flag_state
only_row n s e = rw (e, eq_refl n) refl

ReadsAs-is_enabled :
    (n : String) (y : YamlState) (rows : List FlagRow)
    → str_eq n "" ≡ false
    → ReadsAs n y rows
    → (digest : ℕ → ℕ) (novel : Option ℕ)
    → is_enabled digest (some rows) n novel
      ≡ is_enabled digest (some (record { name = n; state = target y } ∷ [])) n novel
ReadsAs-is_enabled n y rows e (s, r, (p, q, a)) digest novel =
    is_enabled-row digest n rows s novel r
    ∙ rw (admits_novel-keys digest s (target y) novel q a, p) refl
    ∙ sym (
        is_enabled-row digest n (record { name = n; state = target y } ∷ []) (target y) novel
          (only_row n (target y) e))

-- The database after a sync of a flag; an error leaves it as it is.
abbrev pub after_sync :
    (String → String) → (Json → Json → Bool) → String → YamlState → FlagDb → FlagDb
after_sync strip same n y db = elim (apply_flag_state_from_yaml strip same n y db) [
  | ok r ↦ r.1
  | err e ↦ db
]

-- The database after a number of syncs.
abbrev pub after_syncs :
    (String → String) → (Json → Json → Bool) → String → YamlState → ℕ → FlagDb → FlagDb
after_syncs strip same n y zero db = db
after_syncs strip same n y (suc m) db = after_syncs strip same n y m (after_sync strip same n y db)

module _ (strip : String → String) (same : Json → Json → Bool) (n : String) (y : YamlState)
    (a_name : str_eq n "" ≡ false)
    (a_reason : str_eq (strip "yaml→db sync (presets/flags/)") "" ≡ false)
    (an_actor : str_eq (strip "yaml_sync") "" ≡ false)
    (percent : in_pct_range (some (or_else y.rollout_pct (pos 0))) ≡ true)
    (others : overrides_controlled y.extra ≡ false) where
  abbrev new_state : FlagDb → FlagState
  new_state db =
      changed (yaml_change y) (or_else (before_of (find (named n) db.rows)) default_state)

  abbrev written : FlagDb → FlagDb
  written db = stored strip n (yaml_change y) db (new_state db)

  apply-skipped :
      (db : FlagDb)
      → equals_target same (before_of (find (named n) db.rows)) y ≡ true
      → apply_flag_state_from_yaml strip same n y db ≡ ok (none, db)
  unfolding apply_flag_state_from_yaml
  apply-skipped db e = rw (e, apply_flag_state_from_yaml) refl

  apply-written :
      (db : FlagDb)
      → equals_target same (before_of (find (named n) db.rows)) y ≡ false
      → apply_flag_state_from_yaml strip same n y db ≡ ok (some (new_state db), written db)
  unfolding apply_flag_state_from_yaml
  apply-written db e =
      rw
        (
          e,
          set_flag-ok strip n (yaml_change y) db a_name a_reason an_actor percent
              (target_extra-overrides y others),
        )
        refl

  skipped-ReadsAs :
      (db : FlagDb)
      → equals_target same (before_of (find (named n) db.rows)) y ≡ true
      → ReadsAs n y db.rows
  unfolding get_flag_state
  skipped-ReadsAs db e = elim (Option-cases (find (named n) db.rows)) [
    | inl k ↦ absurd (ground arith)
    | inr (r, k) ↦
        (r.state, rw (a_name, k) refl, equals_target-HasKeys same r.state y (ground arith))
  ]

  written-ReadsAs : (db : FlagDb) → ReadsAs n y (written db).rows
  unfolding get_flag_state changed
  written-ReadsAs db = (
    new_state db,
    rw a_name (rw (find-store_row n (new_state db) db.rows) refl),
    (refl, refl, refl),
  )

  -- Where the flag has a name, its entry in the files has a percentage from 0 to 100 and no controlled
  -- key among the others, and `strip` leaves something of the sync's reason and author: a sync of the
  -- flag is accepted, and the flag then evaluates as its entry says, for every novel, whatever a
  -- promotion, a rollback or an operator wrote before.
  pub sync-restores :
      (db : FlagDb)
      → (s : Option FlagState) × (db' : FlagDb) × (apply_flag_state_from_yaml strip same n y db
          ≡ ok (s, db'))
        × ((digest : ℕ → ℕ) (novel : Option ℕ)
            → is_enabled digest (some db'.rows) n novel
              ≡ is_enabled digest (some (record { name = n; state = target y } ∷ [])) n novel)
  sync-restores db = elim (Bool-cases (equals_target same (before_of (find (named n) db.rows)) y)) [
    | inl e ↦
        (none, db, apply-skipped db e, ReadsAs-is_enabled n y db.rows a_name (skipped-ReadsAs db e))
    | inr e ↦ (
      some (new_state db),
      written db,
      apply-written db e,
      ReadsAs-is_enabled n y (written db).rows a_name (written-ReadsAs db),
    )
  ]

  after_sync-written :
      (db : FlagDb)
      → equals_target same (before_of (find (named n) db.rows)) y ≡ false
      → after_sync strip same n y db ≡ written db
  after_sync-written db e =
      ap (λ (o : Result FlagError (Option FlagState × FlagDb)). elim o [ ok r ↦ r.1 | err e ↦ db ])
        (apply-written db e)

  module _ (k : String) (unknown : has k (target_extra y) ≡ false) where
    abbrev pub HasExtra : FlagDb → Type 0
    HasExtra db = (r : FlagRow) × (find (named n) db.rows ≡ some r) × (has k r.state.extra ≡ true)

    HasExtra-differs :
        (db : FlagDb)
        → HasExtra db
        → equals_target same (before_of (find (named n) db.rows)) y ≡ false
    HasExtra-differs db (r, e, h) = rw e (
        ground (
          arith,
          has-entries_within same k (update default_extra r.state.extra) (target_extra y),
          has-update k default_extra r.state.extra,
        ))

    written-HasExtra : (db : FlagDb) → HasExtra db → HasExtra (written db)
    unfolding changed
    written-HasExtra db (r, e, h) = (
      record { name = n; state = new_state db },
      find-store_row n (new_state db) db.rows,
      rw e (ground (arith, has-update k r.state.extra (target_extra y))),
    )

    -- Where the flag has a name, its entry in the files has a percentage from 0 to 100 and no
    -- controlled key among the others, and `strip` leaves something of the sync's reason and author: a
    -- flag with a key that neither its entry nor the default has is written by every sync, with one
    -- more row of the audit log each time.
    pub sync-never_settles :
        (db : FlagDb)
        → HasExtra db
        → (m : ℕ) → length (after_syncs strip same n y m db).audit ≡ length db.audit + m
    sync-never_settles db h zero = omega arith
    sync-never_settles db h (suc m) =
        ap (λ d. length (after_syncs strip same n y m d).audit)
          (after_sync-written db (HasExtra-differs db h))
        ∙ omega (
          arith,
          sync-never_settles (written db) (written-HasExtra db h) m,
          length-append_one _ db.audit,
        )
