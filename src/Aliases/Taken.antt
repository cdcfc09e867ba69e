-- ===== src/Aliases/Taken.antt =====
-- Which places of a text the loop of `resolve_aliases` of app/services/memory/alias_registry.py leaves
-- to the matches of one alias.
use Prim.Native.String.{String}
use ai_jin_shu.Common.{
  ℕ, suc, ◌+◌, ◌-◌, ◌≤◌, ◌≡◌, refl, Bool, true, not, ◌&&◌, ◌||◌, List, [], ◌∷◌, ◌++◌, ltb, leb,
  str_eq, any, All, arith, Bool-cases, inl, inr,
}
use ai_jin_shu.Common.Table.{All-append_one, any-append, any-append_new}
use ai_jin_shu.Aliases.{
  AliasRegistry, AliasMatch, text_length, begins_with, overlaps, match_at, scan_alias, scan_rows,
}

-- A match that shares a position with the `n` characters from `i` on, and is at least as long.
abbrev pub takes : ℕ → ℕ → AliasMatch → Bool
takes i n m = (ltb i m.stop && ltb m.start (i + n)) && leb n (m.stop - m.start)

-- Wherever the alias stands in the text, which is the rest from `i` on, a match takes the place.
abbrev pub all_taken : String → String → ℕ → List AliasMatch → Bool
all_taken alias String.[] i ms = true
all_taken alias (String.◌∷◌ c s) i ms =
    (not (begins_with alias (String.◌∷◌ c s)) || any (takes i (text_length alias)) ms)
    && all_taken alias s (suc i) ms

abbrev pub is_covered : String → List AliasMatch → AliasRegistry → Bool
is_covered text ms r = str_eq r.alias "" || all_taken r.alias text 0 ms

scan_alias-keeps_any :
    (p : AliasMatch → Bool) (r : AliasRegistry) (text : String) (i : ℕ) (found : List AliasMatch)
    → any p found ≡ true
    → any p (scan_alias r text i found) ≡ true
unfolding scan_alias
scan_alias-keeps_any p r String.[] i found h = h
scan_alias-keeps_any p r (String.◌∷◌ c s) i found h =
    elim (Bool-cases
      (begins_with r.alias (String.◌∷◌ c s) && not (overlaps i (i + text_length r.alias) found))) [
        | inl e ↦ rw e (
            scan_alias-keeps_any p r s (suc i) (found ++ match_at r i ∷ [])
              (any-append p (match_at r i) found h))
        | inr e ↦ rw e (scan_alias-keeps_any p r s (suc i) found h)
      ]

-- All matches are at least `n` long.
abbrev pub AllLong : ℕ → List AliasMatch → Type 0
AllLong n ms = All (λ m. n ≤ m.stop - m.start) ms

overlap-taken :
    (i n : ℕ) (ms : List AliasMatch)
    → AllLong n ms
    → overlaps i (i + n) ms ≡ true
    → any (takes i n) ms ≡ true
overlap-taken i n [] h o = ground arith
overlap-taken i n (m ∷ ms) h o = ground (arith, h.0, overlap-taken i n ms h.1)

pub scan_alias-AllLong :
    (n : ℕ) (r : AliasRegistry) (text : String) (i : ℕ) (found : List AliasMatch)
    → n ≤ text_length r.alias
    → AllLong n found
    → AllLong n (scan_alias r text i found)
unfolding scan_alias
scan_alias-AllLong n r String.[] i found k h = h
scan_alias-AllLong n r (String.◌∷◌ c s) i found k h =
    elim (Bool-cases
      (begins_with r.alias (String.◌∷◌ c s) && not (overlaps i (i + text_length r.alias) found))) [
        | inl e ↦ rw e (
            scan_alias-AllLong n r s (suc i) (found ++ match_at r i ∷ []) k
              (All-append_one (λ m. n ≤ m.stop - m.start) (match_at r i) found h (omega arith)))
        | inr e ↦ rw e (scan_alias-AllLong n r s (suc i) found k h)
      ]

pub scan_alias-all_taken :
    (r : AliasRegistry) (text : String) (i : ℕ) (found : List AliasMatch)
    → 1 ≤ text_length r.alias
    → AllLong (text_length r.alias) found
    → all_taken r.alias text i (scan_alias r text i found) ≡ true
unfolding scan_alias
scan_alias-all_taken r String.[] i found n h = refl
scan_alias-all_taken r (String.◌∷◌ c s) i found n h =
    elim (Bool-cases (begins_with r.alias (String.◌∷◌ c s))) [
      | inr e ↦ rw e (scan_alias-all_taken r s (suc i) found n h)
      | inl e ↦ elim (Bool-cases (overlaps i (i + text_length r.alias) found)) [
        | inl o ↦ rw e (
            rw o (
              rw
                (scan_alias-keeps_any (takes i (text_length r.alias)) r s (suc i) found
                  (overlap-taken i (text_length r.alias) found h o))
                (scan_alias-all_taken r s (suc i) found n h)))
        | inr o ↦
            let more = found ++ match_at r i ∷ [] in
            rw e (
              rw o (
                rw
                  (scan_alias-keeps_any (takes i (text_length r.alias)) r s (suc i) more (
                    any-append_new (takes i (text_length r.alias)) (match_at r i) found
                      (ground arith)))
                  (scan_alias-all_taken r s (suc i) more n (
                    All-append_one (λ m. text_length r.alias ≤ m.stop - m.start) (match_at r i)
                      found h (omega arith)))))
      ]
    ]

pub all_taken_mono :
    (alias text : String) (i : ℕ) (f g : List AliasMatch)
    → ((j : ℕ)
        → any (takes j (text_length alias)) f ≡ true
        → any (takes j (text_length alias)) g ≡ true)
    → all_taken alias text i f ≡ true
    → all_taken alias text i g ≡ true
all_taken_mono alias String.[] i f g h k = refl
all_taken_mono alias (String.◌∷◌ c s) i f g h k =
    ground (arith, h i, all_taken_mono alias s (suc i) f g h)

pub scan_rows-keeps_any :
    (p : AliasMatch → Bool) (rs : List AliasRegistry) (text : String) (found : List AliasMatch)
    → any p found ≡ true
    → any p (scan_rows rs text found) ≡ true
unfolding scan_rows
scan_rows-keeps_any p [] text found h = h
scan_rows-keeps_any p (r ∷ rs) text found h = elim (Bool-cases (str_eq r.alias "")) [
  | inl e ↦ rw e (scan_rows-keeps_any p rs text found h)
  | inr e ↦ rw e (
      scan_rows-keeps_any p rs text (scan_alias r text 0 found)
        (scan_alias-keeps_any p r text 0 found h))
]
