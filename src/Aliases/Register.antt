-- ===== src/Aliases/Register.antt =====
-- register_alias and bulk_register of app/services/memory/alias_registry.py: what they add to the
-- table of the aliases. The constraints of the table are those of AliasRegistry in
-- app/models/novel.py: one row for an alias of a version, and a version that exists. An insert that
-- breaks one is the IntegrityError of the code. A value that is longer or larger than its column is
-- PostgreSQL's error, which the code does not catch. A row stands without its id, which a sequence of
-- the database draws, and without `created_at`.
use ai_jin_shu.Common.{
  Result, ok, err, ltb, ℕ, suc, Bool, not, ◌&&◌, ◌||◌, List, [], ◌∷◌, ◌++◌, ◌==◌, str_eq, any,
  select, length, String, Option, none, some, or_else, if◌then◌else◌,
}
use ai_jin_shu.Common.Int.{ℤ, pos, negsuc, ltb_ℤ}
use ai_jin_shu.Common.Table.{find}
use ai_jin_shu.Aliases.{text_length}

-- The part of the process and of the database that is not this code: `str.strip` and the versions of
-- the novels.
pub record Outside : Type 0 where
  pub strip : String → String
  pub has_version : ℕ → Bool

-- A row of the table, without its id.
pub record AliasEntry : Type 0 where
  pub novel_version_id : ℕ
  pub character_key : String
  pub alias : String
  pub alias_type : String
  pub priority : ℤ

pub data RegisterError : Type 0 where
  value_out_of_range : RegisterError

-- The arguments of `register_alias`, and an item of `bulk_register` that is a dict.
pub record AliasItem : Type 0 where
  pub character_key : Option String
  pub alias : Option String
  pub alias_type : Option String
  pub priority : Option ℤ

-- What is written of an item.
pub record AliasPayload : Type 0 where
  pub character_key : String
  pub alias : String
  pub alias_type : String
  pub priority : ℤ

-- `_ALLOWED_TYPES`
abbrev pub is_allowed_type : String → Bool
is_allowed_type t =
    str_eq t "surface" || str_eq t "nickname" || str_eq t "title" || str_eq t "honorific"

unfoldable pub payload_of : Outside → AliasItem → Option AliasPayload
payload_of o i =
    let alias = o.strip (or_else i.alias "") in
    let key = o.strip (or_else i.character_key "") in
    let alias_type = or_else i.alias_type "surface" in
    if str_eq alias "" || str_eq key ""
    then none
    else some (record {
      character_key = key;
      alias = alias;
      alias_type = if is_allowed_type alias_type then alias_type else "surface";
      priority = or_else i.priority (pos 0);
    })

-- The key of the unique constraint.
abbrev pub is_alias_of : ℕ → String → AliasEntry → Bool
is_alias_of version alias r = r.novel_version_id == version && str_eq r.alias alias

-- An insert breaks neither constraint.
abbrev pub accepts : Outside → ℕ → List AliasEntry → AliasPayload → Bool
accepts o version rows p = o.has_version version && not (any (is_alias_of version p.alias) rows)

abbrev pub inserted_row : ℕ → AliasPayload → AliasEntry
inserted_row version p = record {
  novel_version_id = version;
  character_key = p.character_key;
  alias = p.alias;
  alias_type = p.alias_type;
  priority = p.priority;
}

-- A value does not fit its column: `String(255)`, `String(64)` and `Integer`.
abbrev pub is_out_of_range : AliasPayload → Bool
is_out_of_range p =
    ltb 255 (text_length p.alias)
    || ltb 64 (text_length p.character_key)
    || ltb_ℤ p.priority (negsuc 2147483647)
    || ltb_ℤ (pos 2147483647) p.priority

-- The commit, and the query for the row that is there after an IntegrityError.
abbrev pub register_row :
    Outside → ℕ → AliasPayload → List AliasEntry → Option AliasEntry × List AliasEntry
register_row o version p rows =
    if accepts o version rows p
    then (some (inserted_row version p), rows ++ inserted_row version p ∷ [])
    else (find (is_alias_of version p.alias) rows, rows)

-- `register_alias`: the row that it returns, and the table.
unfoldable pub register_alias :
    Outside
    → ℕ
    → AliasItem
    → List AliasEntry
    → Result RegisterError (Option AliasEntry × List AliasEntry)
register_alias o version i rows = elim (payload_of o i) [
  | none ↦ ok (none, rows)
  | some p ↦
      if is_out_of_range p then err value_out_of_range else ok (register_row o version p rows)
]

abbrev pub has_alias : String → AliasPayload → Bool
has_alias alias p = str_eq p.alias alias

-- `candidates.setdefault`
abbrev pub add_candidate : AliasPayload → List AliasPayload → List AliasPayload
add_candidate p candidates =
    if any (has_alias p.alias) candidates then candidates else candidates ++ p ∷ []

-- The candidates of `bulk_register`, in the order of the dict; an item that is not a dict is `none`.
unfoldable pub collect : Outside → List (Option AliasItem) → List AliasPayload → List AliasPayload
collect o [] candidates = candidates
collect o (none ∷ items) candidates = collect o items candidates
collect o (some i ∷ items) candidates =
    collect o items
      (elim (payload_of o i) [ none ↦ candidates | some p ↦ add_candidate p candidates ])

-- `db.add_all` and `db.flush`: the table, or the IntegrityError of one of the rows.
unfoldable pub flush_all :
    Outside → ℕ → List AliasPayload → List AliasEntry → Option (List AliasEntry)
flush_all o version [] rows = some rows
flush_all o version (p ∷ ps) rows =
    let rest = flush_all o version ps (rows ++ inserted_row version p ∷ []) in
    if accepts o version rows p then rest else none

-- The loop over the rows, each in a savepoint of its own: the number written, and the table.
unfoldable pub add_each : Outside → ℕ → List AliasPayload → List AliasEntry → ℕ × List AliasEntry
add_each o version [] rows = (0, rows)
add_each o version (p ∷ ps) rows =
    let added = add_each o version ps (rows ++ inserted_row version p ∷ []) in
    let skipped = add_each o version ps rows in
    if accepts o version rows p then (suc added.0, added.1) else skipped

unfoldable pub write_new : Outside → ℕ → List AliasPayload → List AliasEntry → ℕ × List AliasEntry
unfolding flush_all add_each
write_new o version ps rows = elim (flush_all o version ps rows) [
  | some written ↦ (length ps, written)
  | none ↦ add_each o version ps rows
]

-- The rows that `bulk_register` adds to the session, where `seen` is the table that the query for the
-- aliases reads.
abbrev pub new_rows : Outside → ℕ → List (Option AliasItem) → List AliasEntry → List AliasPayload
new_rows o version items seen =
    select (λ p. not (any (is_alias_of version p.alias) seen)) (collect o items [])

-- `bulk_register`. `rows` is the table that the rows are written to, with what others have added
-- since the query. A value that does not fit its column ends the flush, or the savepoint of its row,
-- with an error that is not an IntegrityError, and the transaction with it.
unfoldable pub bulk_register :
    Outside
    → ℕ
    → List (Option AliasItem)
    → List AliasEntry
    → List AliasEntry
    → Result RegisterError (ℕ × List AliasEntry)
unfolding collect write_new
bulk_register o version items seen rows =
    if any is_out_of_range (new_rows o version items seen)
    then err value_out_of_range
    else ok (write_new o version (new_rows o version items seen) rows)
