-- ===== src/Generation/Length.antt =====
-- app/services/generation/length_control.py: the length that a chapter should have, and the one attempt
-- to compact a chapter that is too long. `is_space` is Python's test of white space, and `compact` is
-- what the model and the normalization after it make of a chapter, `none` on an exception.
pub mod Compaction
use Prim.Native.String.{[], ◌∷◌}
use Prim.Native.Char.{Char}
use ai_jin_shu.Common.{
  ℕ, suc, Bool, true, false, Option, none, some, String, ltb, leb, ◌==◌, max, min, if◌then◌else◌,
}
use ai_jin_shu.Common.Int.{ℤ, pos, negsuc}

pub record ChapterLengthPolicy : Type 0 where
  pub min_words : ℕ
  pub target_words : ℕ
  pub soft_max_words : ℕ
  pub hard_ceiling_words : ℕ

-- `DEFAULT_CHAPTER_LENGTH_POLICY`
abbrev pub default_length_policy : ChapterLengthPolicy
default_length_policy = record {
  min_words = 2000;
  target_words = 2600;
  soft_max_words = 3000;
  hard_ceiling_words = 3500;
}

-- `max(2000, int(word_count or 2600))`
abbrev pub wanted_words : ℤ → ℕ
wanted_words (pos n) =
    max default_length_policy.min_words (if n == 0 then default_length_policy.target_words else n)
wanted_words (negsuc n) = default_length_policy.min_words

-- `resolve_chapter_length_policy`
abbrev pub resolve_chapter_length_policy : Option ℤ → ChapterLengthPolicy
resolve_chapter_length_policy none = default_length_policy
resolve_chapter_length_policy (some z) =
    let words = min default_length_policy.soft_max_words (wanted_words z) in
    if words == default_length_policy.target_words
    then default_length_policy
    else record default_length_policy { target_words = words }

-- The length diagnostics of a chapter.
pub record Diagnostics : Type 0 where
  pub word_count_before_compaction : ℕ
  pub word_count_after_compaction : ℕ
  pub length_compaction_attempted : Bool
  pub length_compaction_applied : Bool
  pub length_compaction_reason : String

-- "hard_ceiling_exceeded" or "soft_max_exceeded"
abbrev pub excess : ChapterLengthPolicy → ℕ → String
excess p before =
    if ltb p.hard_ceiling_words before then "hard_ceiling_exceeded" else "soft_max_exceeded"

module _ (is_space : Char → Bool) where
  -- `count_content_words`: the characters that are not white space.
  unfoldable pub count_content_words : String → ℕ
  count_content_words [] = 0
  count_content_words (c ∷ s) =
      let rest = count_content_words s in if is_space c then rest else suc rest

  abbrev pub diagnostics : String → ℕ → Bool → Bool → String → Diagnostics
  diagnostics content after attempted applied reason = record {
    word_count_before_compaction = count_content_words content;
    word_count_after_compaction = after;
    length_compaction_attempted = attempted;
    length_compaction_applied = applied;
    length_compaction_reason = reason;
  }

  -- What is done with the answer of `compact`. A text strips to nothing when it has no words.
  abbrev pub after_compaction : ChapterLengthPolicy → String → Option String → String × Diagnostics
  after_compaction p content none =
      (content, diagnostics content (count_content_words content) true false "compaction_error")
  after_compaction p content (some compacted) =
      let before = count_content_words content in
      let words = count_content_words compacted in
      if words == 0
      then (content, diagnostics content words true false "compaction_empty")
      else if ltb words p.min_words
      then (content, diagnostics content words true false "compaction_under_min")
      else if leb before words
      then (content, diagnostics content words true false "compaction_not_shorter")
      else (compacted, diagnostics content words true true (excess p before))

  -- `maybe_compact_chapter_length`; the feedback for the model is made of the length and the policy.
  abbrev pub maybe_compact_chapter_length :
      (String → ℕ → ChapterLengthPolicy → Option String) → String → Option ℤ → String × Diagnostics
  maybe_compact_chapter_length compact content word_count =
      let p = resolve_chapter_length_policy word_count in
      let before = count_content_words content in
      if leb before p.soft_max_words
      then (content, diagnostics content before false false "")
      else after_compaction p content (compact content before p)
