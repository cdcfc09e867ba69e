-- ===== src/Generation/Length/Compaction.antt =====
-- What `maybe_compact_chapter_length` of app/services/generation/length_control.py may do to a chapter.
use Prim.Native.Char.{Char}
use ai_jin_shu.Common.{
  ℕ, ◌≤◌, ◌≡◌, sym, Bool, true, false, Option, none, some, String, ltb, leb, ◌==◌, min, arith,
  Bool-cases, inl, inr,
}
use ai_jin_shu.Common.Int.{ℤ, pos, negsuc}
use ai_jin_shu.Generation.Length.{
  ChapterLengthPolicy, Diagnostics, diagnostics, resolve_chapter_length_policy, count_content_words,
  after_compaction, maybe_compact_chapter_length,
}

abbrev HasBounds : ChapterLengthPolicy → Type 0
HasBounds p =
    (p.min_words ≡ 2000)
    × (p.soft_max_words ≡ 3000)
    × (2000 ≤ p.target_words)
    × (p.target_words ≤ 3000)

resolve-HasBounds : (w : Option ℤ) → HasBounds (resolve_chapter_length_policy w)
resolve-HasBounds none = ground arith
resolve-HasBounds (some (pos n)) = ground arith
resolve-HasBounds (some (negsuc n)) = ground arith

module _ (is_space : Char → Bool) where
  -- A chapter and its diagnostics after the attempt: it is not longer, it is replaced exactly when it
  -- is shorter, and it has the minimum unless it had less before.
  abbrev pub IsSound : String → String × Diagnostics → Type 0
  IsSound content r =
      let before = count_content_words is_space content in
      let after = count_content_words is_space r.0 in
      (min 2000 before ≤ after)
      × (after ≤ before)
      × (r.1.length_compaction_applied ≡ ltb after before)
      × (r.1.length_compaction_attempted ≡ ltb 3000 before)

  kept-IsSound :
      (content : String) (w : ℕ) (b : Bool) (reason : String)
      → ltb 3000 (count_content_words is_space content) ≡ b
      → IsSound content (content, diagnostics is_space content w b false reason)
  kept-IsSound content w b reason h = (omega arith, omega arith, ground arith, sym h)

  after_compaction-IsSound :
      (p : ChapterLengthPolicy) (content : String) (o : Option String)
      → p.min_words ≡ 2000
      → ltb 3000 (count_content_words is_space content) ≡ true
      → IsSound content (after_compaction is_space p content o)
  after_compaction-IsSound p content none m h =
      kept-IsSound content (count_content_words is_space content) true "compaction_error" h
  after_compaction-IsSound p content (some c) m h =
      let before = count_content_words is_space content in
      let words = count_content_words is_space c in
      elim (Bool-cases (words == 0)) [
        | inl e ↦ rw e (kept-IsSound content words true "compaction_empty" h)
        | inr e ↦ rw e (elim (Bool-cases (ltb words p.min_words)) [
          | inl f ↦ rw f (kept-IsSound content words true "compaction_under_min" h)
          | inr f ↦ rw f (elim (Bool-cases (leb before words)) [
            | inl g ↦ rw g (kept-IsSound content words true "compaction_not_shorter" h)
            | inr g ↦ rw g (ground arith, ground arith, ground arith, sym h)
          ])
        ])
      ]

  -- Whatever the model answers, the chapter that comes out is not longer than the one that went in,
  -- and not below 2000 words unless that one was; it is reported as compacted exactly when it is
  -- shorter, and an attempt is reported exactly when there were more than 3000 words.
  pub maybe_compact_chapter_length-IsSound :
      (compact : String → ℕ → ChapterLengthPolicy → Option String) (content : String)
      (word_count : Option ℤ)
      → IsSound content (maybe_compact_chapter_length is_space compact content word_count)
  maybe_compact_chapter_length-IsSound compact content word_count =
      let p = resolve_chapter_length_policy word_count in
      let before = count_content_words is_space content in
      let bounds = resolve-HasBounds word_count in
      elim (Bool-cases (leb before p.soft_max_words)) [
        | inl e ↦ rw e (kept-IsSound content before false "" (ground arith))
        | inr e ↦
            rw e (
              after_compaction-IsSound p content (compact content before p) bounds.0 (ground arith))
      ]
