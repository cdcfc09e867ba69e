-- ===== src/Generation/Machine/Written.antt =====
-- The rows of a stretch of chapters, and what the nodes' writes do to them.
use ai_jin_shu.Common.{
  ℕ, zero, suc, ◌+◌, ◌-◌, ◌≤◌, ◌<◌, ◌≡◌, refl, Bool, true, List, [], ◌∷◌, ◌++◌, ◌==◌, any, is_some,
  ◌||◌, ◌&&◌, arith, subst, leb, Bool-cases, inl, inr,
}
use ai_jin_shu.Common.Table.{find, put}
use ai_jin_shu.Generation.State.{ChapterVersion, ChapterStatus}
use ai_jin_shu.Generation.Nodes.{save_chapter}

unfoldable pub has_row : ℕ → List ChapterVersion → Bool
has_row k rows = any (λ r. r.chapter_num == k) rows

-- Every chapter from `start` and before `stop` has a row.
abbrev pub stretch : ℕ → ℕ → List ChapterVersion → Bool
stretch start zero rows = true
stretch start (suc n) rows = has_row start rows && stretch (suc start) n rows

unfoldable pub written : ℕ → ℕ → List ChapterVersion → Bool
written start stop rows = stretch start (stop - start) rows

has_row-put :
    (k n : ℕ) (status : ChapterStatus) (rows : List ChapterVersion)
    → has_row k (put (λ r. r.chapter_num == n) (record { chapter_num = n; status = status }) rows)
      ≡ has_row k rows
unfolding has_row
has_row-put k n status [] = refl
has_row-put k n status (r ∷ rows) = ground (arith, has_row-put k n status rows)

has_row-find :
    (n : ℕ) (rows : List ChapterVersion)
    → is_some (find (λ r. r.chapter_num == n) rows) ≡ has_row n rows
unfolding has_row
has_row-find n [] = refl
has_row-find n (r ∷ rows) = ground (arith, has_row-find n rows)

has_row-++ :
    (k : ℕ) (r : ChapterVersion) (rows : List ChapterVersion)
    → has_row k (rows ++ r ∷ []) ≡ (has_row k rows || r.chapter_num == k)
unfolding has_row
has_row-++ k r [] = ground arith
has_row-++ k r (q ∷ rows) = ground (arith, has_row-++ k r rows)

-- Saving a chapter adds its row and keeps the others.
pub has_row-save_chapter :
    (k n : ℕ) (status : ChapterStatus) (rows : List ChapterVersion)
    → has_row k (save_chapter n status rows) ≡ (has_row k rows || n == k)
unfolding save_chapter
has_row-save_chapter k n status rows = ground (
  arith,
  has_row-find n rows,
  has_row-put k n status rows,
  has_row-++ k (record { chapter_num = n; status = status }) rows,
)

stretch-save_chapter :
    (a m n : ℕ) (status : ChapterStatus) (rows : List ChapterVersion)
    → stretch a m rows ≡ true
    → stretch a m (save_chapter n status rows) ≡ true
stretch-save_chapter a zero n status rows h = refl
stretch-save_chapter a (suc m) n status rows h =
    ground
      (arith, has_row-save_chapter a n status rows, stretch-save_chapter (suc a) m n status rows)

pub written-save_chapter :
    (a b n : ℕ) (status : ChapterStatus) (rows : List ChapterVersion)
    → written a b rows ≡ true
    → written a b (save_chapter n status rows) ≡ true
unfolding written
written-save_chapter a b n status rows h = stretch-save_chapter a (b - a) n status rows h

stretch-has_row :
    (a m k : ℕ) (rows : List ChapterVersion)
    → stretch a m rows ≡ true
    → a ≤ k
    → k < a + m
    → has_row k rows ≡ true
stretch-has_row a zero k rows h l u = ground arith
stretch-has_row a (suc m) k rows h l u = ground (arith, stretch-has_row (suc a) m k rows)

pub written-has_row :
    (a b k : ℕ) (rows : List ChapterVersion)
    → written a b rows ≡ true
    → a ≤ k
    → k < b
    → has_row k rows ≡ true
unfolding written
written-has_row a b k rows h l u = stretch-has_row a (b - a) k rows h l (omega arith)

stretch-shorter :
    (a m n : ℕ) (rows : List ChapterVersion)
    → n ≤ m
    → stretch a m rows ≡ true
    → stretch a n rows ≡ true
stretch-shorter a m zero rows l h = refl
stretch-shorter a zero (suc n) rows l h = ground arith
stretch-shorter a (suc m) (suc n) rows l h = ground (arith, stretch-shorter (suc a) m n rows)

pub written-shorter :
    (a b c : ℕ) (rows : List ChapterVersion)
    → c ≤ b
    → written a b rows ≡ true
    → written a c rows ≡ true
unfolding written
written-shorter a b c rows l h = stretch-shorter a (b - a) (c - a) rows (omega arith) h

stretch-longer :
    (a m : ℕ) (rows : List ChapterVersion)
    → stretch a m rows ≡ true
    → has_row (a + m) rows ≡ true
    → stretch a (suc m) rows ≡ true
stretch-longer a zero rows h g = ground arith
stretch-longer a (suc m) rows h g = ground (arith, stretch-longer (suc a) m rows)

pub written-suc :
    (a b : ℕ) (rows : List ChapterVersion)
    → written a b rows ≡ true
    → has_row b rows ≡ true
    → written a (suc b) rows ≡ true
unfolding written
written-suc a b rows h g = elim (Bool-cases (leb a b)) [
  | inl e ↦
      let same : b ≡ a + (b - a) = ground arith in
      stretch-shorter a (suc (b - a)) (suc b - a) rows (omega arith)
        (stretch-longer a (b - a) rows h (subst (λ k. has_row k rows ≡ true) same g))
  | inr e ↦ stretch-shorter a (b - a) (suc b - a) rows (ground arith) h
]

pub written-empty : (a : ℕ) (rows : List ChapterVersion) → written a a rows ≡ true
unfolding written
written-empty a rows = stretch-shorter a 0 (a - a) rows (omega arith) refl
