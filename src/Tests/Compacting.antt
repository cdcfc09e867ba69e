-- ===== src/Tests/Compacting.antt =====
-- Runs of the compaction of a chapter.
use Prim.Native.String.{[], ◌++◌}
use ai_jin_shu.Common.{ℕ, zero, suc, ◌≡◌, refl, false, none, some, String}
use ai_jin_shu.Common.Int.{pos}
use ai_jin_shu.Generation.Length.{resolve_chapter_length_policy, maybe_compact_chapter_length}
use ai_jin_shu.Generation.Length.Compaction.{IsSound, maybe_compact_chapter_length-IsSound}

-- A chapter of five times `n` characters.
abbrev chapter : ℕ → String
chapter zero = []
chapter (suc n) = "words" ++ chapter n

too_many_words : (resolve_chapter_length_policy (some (pos 5000))).target_words ≡ 3000
too_many_words = refl

zero_words : (resolve_chapter_length_policy (some (pos 0))).target_words ≡ 2600
zero_words = refl

-- A chapter of 3500 characters that is compacted to 2500.
maybe_compact_chapter_length-IsSound_example :
    IsSound
      (λ c. false)
      (chapter 700)
      (maybe_compact_chapter_length (λ c. false) (λ s n p. some (chapter 500)) (chapter 700) none)
maybe_compact_chapter_length-IsSound_example =
    maybe_compact_chapter_length-IsSound (λ c. false) (λ s n p. some (chapter 500)) (chapter 700)
      none
