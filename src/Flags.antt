-- ===== src/Flags.antt =====
-- app/core/feature_flags.py: the evaluation of a feature flag and the write of its runtime copy.
-- The typed fields of a flag's state are those that `set_flag`, its only writer, stores; the rest
-- of the state is in `extra`.
pub mod Rollout
pub mod Cache
pub mod Coherence
pub mod Stale
pub mod Registry
pub mod Restored
pub mod Keys
use ai_jin_shu.Common.{
  ℕ, ◌%◌, ◌≤◌, ◌≡◌, Bool, true, false, not, ◌&&◌, ◌||◌, Option, none, some, String, List, [], ◌∷◌,
  ◌++◌, str_eq, ltb, leb, any, is_some, ◌==◌, if◌then◌else◌, Result, ok, err, ◌>>=◌, ◌>>◌, guard,
  or_else,
}
use ai_jin_shu.Common.Int.{ℤ, pos, pos_part, leb_ℤ}
use ai_jin_shu.Common.Table.{find, put}
use ai_jin_shu.Json.{Json, Fields, end, field, set_key}
use ai_jin_shu.Json.Merge.{has}

pub record FlagState : Type 0 where
  pub enabled : Bool
  pub rollout_pct : ℕ
  pub novel_allowlist : List ℕ
  pub extra : Fields

-- _DEFAULT_FLAG_STATE; the other entries of the default stand for their keys' absence.
abbrev pub default_state : FlagState
default_state = record { enabled = false; rollout_pct = 0; novel_allowlist = []; extra = end }

-- A row of `system_settings` under the key `flag.<name>`.
pub record FlagRow : Type 0 where
  pub name : String
  pub state : FlagState

abbrev pub named : String → FlagRow → Bool
named n r = str_eq r.name n

-- What `_read_all` returns: `none` when neither the database nor the cache can be read.
abbrev pub Reading : Type 0
Reading = Option (List FlagRow)

-- `get_flag_state`
unfoldable pub get_flag_state : Reading → String → Option FlagState
get_flag_state none n = none
get_flag_state (some rows) n =
    if str_eq n "" then none else elim (find (named n) rows) [ none ↦ none | some r ↦ some r.state ]

-- `digest i` is the number in the first eight digits of the SHA-256 of "feature_flags:<i>".
unfoldable pub hash_bucket : (ℕ → ℕ) → ℕ → ℕ
hash_bucket digest novel_id = digest novel_id % 100

-- The part of `is_enabled` that reads a novel: the allow list, then the rollout percentage.
unfoldable pub admits_novel : (ℕ → ℕ) → FlagState → Option ℕ → Bool
unfolding hash_bucket
admits_novel digest s none = false
admits_novel digest s (some n) =
    any (λ x. x == n) s.novel_allowlist
    || (ltb 0 s.rollout_pct && ltb (hash_bucket digest n) s.rollout_pct)

unfoldable pub is_enabled : (ℕ → ℕ) → Reading → String → Option ℕ → Bool
unfolding admits_novel
is_enabled digest reading n novel = elim (get_flag_state reading n) [
  | none ↦ false
  | some s ↦ if admits_novel digest s novel then true else s.enabled
]

-- The exceptions of `set_flag`.
pub data FlagError : Type 0 where
  flag_name_required reason_required changed_by_required rollout_pct_range : FlagError
  extra_overrides_field : FlagError

-- A row of `flag_audit_log`; `before` is empty for a new flag.
pub record FlagAudit : Type 0 where
  pub flag_name : String
  pub changed_by : String
  pub before_state : Option FlagState
  pub after_state : FlagState
  pub reason : String

pub record FlagDb : Type 0 where
  pub rows : List FlagRow
  pub audit : List FlagAudit

-- The arguments of `set_flag`; `strip` is Python's `str.strip`.
pub record FlagChange : Type 0 where
  pub enabled : Option Bool
  pub rollout_pct : Option ℤ
  pub novel_allowlist : Option (List ℕ)
  pub extra : Fields
  pub changed_by : String
  pub reason : String

abbrev pub in_pct_range : Option ℤ → Bool
in_pct_range none = true
in_pct_range (some z) = leb_ℤ (pos 0) z && leb_ℤ z (pos 100)

abbrev pub pct_or : Option ℤ → ℕ → ℕ
pct_or none old = old
pct_or (some z) old = pos_part z

-- `merged[k] = v` for every entry of `extra`.
abbrev pub update : Fields → Fields → Fields
update d end = d
update d (field k v rest) = update (set_key k v d) rest

abbrev pub overrides_controlled : Fields → Bool
overrides_controlled d = has "enabled" d || has "rollout_pct" d || has "novel_allowlist" d

unfoldable pub changed : FlagChange → FlagState → FlagState
changed c s = record {
  enabled = or_else c.enabled s.enabled;
  rollout_pct = pct_or c.rollout_pct s.rollout_pct;
  novel_allowlist = or_else c.novel_allowlist s.novel_allowlist;
  extra = update s.extra c.extra;
}

abbrev pub before_of : Option FlagRow → Option FlagState
before_of none = none
before_of (some r) = some r.state

abbrev pub store_row : String → FlagState → Option FlagRow → List FlagRow → List FlagRow
store_row n s none rows = rows ++ record { name = n; state = s } ∷ []
store_row n s (some r) rows = put (named n) (record { name = n; state = s }) rows

-- The row and the audit row that `set_flag` writes.
abbrev pub stored : (String → String) → String → FlagChange → FlagDb → FlagState → FlagDb
stored strip n c db after =
    let row = find (named n) db.rows in
    record {
      rows = store_row n after row db.rows;
      audit =
          db.audit
          ++ record {
            flag_name = n;
            changed_by = strip c.changed_by;
            before_state = before_of row;
            after_state = after;
            reason = strip c.reason;
          }
            ∷ [];
    }

-- `set_flag`: the new state and the database after it. An error writes nothing.
unfoldable pub set_flag :
    (String → String) → String → FlagChange → FlagDb → Result FlagError (FlagState × FlagDb)
unfolding changed
set_flag strip n c db =
    let after = changed c (or_else (before_of (find (named n) db.rows)) default_state) in
    do
      guard (not (str_eq n "")) flag_name_required
      guard (not (str_eq (strip c.reason) "")) reason_required
      guard (not (str_eq (strip c.changed_by) "")) changed_by_required
      guard (in_pct_range c.rollout_pct) rollout_pct_range
      guard (not (overrides_controlled c.extra)) extra_overrides_field
      ok (after, stored strip n c db after)
