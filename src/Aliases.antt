-- ===== src/Aliases.antt =====
-- app/services/memory/alias_registry.py: the names of the characters, and where they stand in a text.
-- A position counts characters. The flag of the feature is an argument.
pub mod Apart
pub mod Taken
pub mod Longest
pub mod Genuine
pub mod Register
pub mod Singles
use Prim.Native.Char.{Char, code}
use Prim.Native.String.{String}
use ai_jin_shu.Common.{
  ℕ, zero, suc, ◌+◌, ◌-◌, Bool, true, false, not, ◌&&◌, ◌||◌, List, [], ◌∷◌, ◌++◌, ltb, leb, ◌==◌,
  str_eq, any, select, if◌then◌else◌,
}
use ai_jin_shu.Common.Int.{ℤ, ltb_ℤ, leb_ℤ}
use ai_jin_shu.Common.Sorting.{sort_by}

pub record AliasRegistry : Type 0 where
  pub id : ℕ
  pub novel_version_id : ℕ
  pub character_key : String
  pub alias : String
  pub alias_type : String
  pub priority : ℤ

pub record AliasMatch : Type 0 where
  pub start : ℕ
  pub stop : ℕ
  pub character_key : String
  pub alias : String
  pub alias_type : String
  pub priority : ℤ

-- `len(text)`
abbrev pub text_length : String → ℕ
text_length String.[] = 0
text_length (String.◌∷◌ c s) = suc (text_length s)

-- The text from a position on.
abbrev pub drop_text : ℕ → String → String
drop_text zero s = s
drop_text (suc n) String.[] = String.[]
drop_text (suc n) (String.◌∷◌ c s) = drop_text n s

-- `text.startswith(alias)`
unfoldable pub begins_with : String → String → Bool
begins_with String.[] t = true
begins_with (String.◌∷◌ c s) String.[] = false
begins_with (String.◌∷◌ c s) (String.◌∷◌ d t) = code c == code d && begins_with s t

-- `order_by(priority.desc(), id.asc())`
abbrev pub by_priority : AliasRegistry → AliasRegistry → Bool
by_priority a b = ltb_ℤ b.priority a.priority || (leb_ℤ b.priority a.priority && leb a.id b.id)

-- `list_aliases`
abbrev pub list_aliases : ℕ → List AliasRegistry → List AliasRegistry
list_aliases version rows = sort_by by_priority (select (λ r. r.novel_version_id == version) rows)

-- The key of `sorted`: the longer alias first, then the higher priority.
abbrev pub longer_first : AliasRegistry → AliasRegistry → Bool
longer_first a b =
    ltb (text_length b.alias) (text_length a.alias)
    || (text_length a.alias == text_length b.alias && leb_ℤ b.priority a.priority)

-- `_overlaps`: `used_spans` are the spans of the matches so far.
abbrev pub overlaps : ℕ → ℕ → List AliasMatch → Bool
overlaps s e found = any (λ m. ltb s m.stop && ltb m.start e) found

abbrev pub match_at : AliasRegistry → ℕ → AliasMatch
match_at r i = record {
  start = i;
  stop = i + text_length r.alias;
  character_key = r.character_key;
  alias = r.alias;
  alias_type = if str_eq r.alias_type "" then "surface" else r.alias_type;
  priority = r.priority;
}

-- The `while` loop for one alias, which is not empty: `text.find(alias, start)` passes over the
-- positions at which the alias does not stand. The text is the rest from the position on.
unfoldable pub scan_alias : AliasRegistry → String → ℕ → List AliasMatch → List AliasMatch
scan_alias r String.[] i found = found
scan_alias r (String.◌∷◌ c s) i found =
    let hit =
      begins_with r.alias (String.◌∷◌ c s) && not (overlaps i (i + text_length r.alias) found) in
    scan_alias r s (suc i) (if hit then found ++ match_at r i ∷ [] else found)

-- The loop over the rows.
unfoldable pub scan_rows : List AliasRegistry → String → List AliasMatch → List AliasMatch
unfolding scan_alias
scan_rows [] text found = found
scan_rows (r ∷ rs) text found =
    scan_rows rs text (if str_eq r.alias "" then found else scan_alias r text 0 found)

-- The order of the matches: by the start, the longer one first.
abbrev pub earlier_first : AliasMatch → AliasMatch → Bool
earlier_first a b =
    ltb a.start b.start || (a.start == b.start && leb (b.stop - b.start) (a.stop - a.start))

-- `resolve_aliases`
unfoldable pub resolve_aliases : Bool → String → ℕ → List AliasRegistry → List AliasMatch
unfolding scan_rows
resolve_aliases enabled text version rows =
    if not enabled || str_eq text ""
    then []
    else sort_by earlier_first
        (scan_rows (sort_by longer_first (list_aliases version rows)) text [])
