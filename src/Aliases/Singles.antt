-- ===== src/Aliases/Singles.antt =====
-- bulk_register of app/services/memory/alias_registry.py against register_alias, one item after the
-- other.
use ai_jin_shu.Common.{
  Result, ok, ◌>>=◌, ℕ, ◌≡◌, refl, sym, ap, ◌∙◌, Bool, true, false, not, ◌&&◌, List, [], ◌∷◌, ◌++◌,
  any, select, String, Option, none, some, if◌then◌else◌, arith, Bool-cases, Option-cases, inl, inr,
  eq_iff, eq_refl, ==_iff,
}
use ai_jin_shu.Common.Table.{any-append, any-append_new}
use ai_jin_shu.Aliases.Register.{
  Outside, AliasItem, AliasPayload, payload_of, is_alias_of, accepts, inserted_row, register_alias,
  AliasEntry, RegisterError, is_out_of_range, register_row, new_rows, has_alias, add_candidate,
  collect, flush_all, add_each, write_new, bulk_register,
}

-- The table after an insert, which a constraint may refuse.
abbrev pub insert : Outside → ℕ → List AliasEntry → AliasPayload → List AliasEntry
insert o v rows p = if accepts o v rows p then rows ++ inserted_row v p ∷ [] else rows

abbrev pub insert_all : Outside → ℕ → List AliasEntry → List AliasPayload → List AliasEntry
insert_all o v rows [] = rows
insert_all o v rows (p ∷ ps) = insert_all o v (insert o v rows p) ps

-- `register_alias` for each of the items that is a dict, one after the other.
abbrev pub register_all :
    Outside → ℕ → List (Option AliasItem) → List AliasEntry → Result RegisterError (List AliasEntry)
unfolding register_alias
register_all o v [] rows = ok rows
register_all o v (none ∷ items) rows = register_all o v items rows
register_all o v (some i ∷ items) rows =
    register_alias o v i rows >>= λ r. register_all o v items r.1

-- What is written of each item fits the columns.
abbrev pub all_fit : Outside → List (Option AliasItem) → Bool
all_fit o [] = true
all_fit o (none ∷ items) = all_fit o items
all_fit o (some i ∷ items) =
    elim (payload_of o i) [ none ↦ true | some p ↦ not (is_out_of_range p) ] && all_fit o items

not-and : (a b : Bool) → (not a && b) ≡ true → (a ≡ false) × (b ≡ true)
not-and true b h = absurd (ground arith)
not-and false b h = (refl, h)

all_fit-cons :
    (o : Outside) (i : AliasItem) (items : List (Option AliasItem)) (p : AliasPayload)
    → payload_of o i ≡ some p
    → all_fit o (some i ∷ items) ≡ true
    → (is_out_of_range p ≡ false) × (all_fit o items ≡ true)
all_fit-cons o i items p e h = not-and (is_out_of_range p) (all_fit o items) (rw e at h)

add_candidate-fits :
    (p : AliasPayload) (ps : List AliasPayload)
    → is_out_of_range p ≡ false
    → any is_out_of_range ps ≡ false
    → any is_out_of_range (add_candidate p ps) ≡ false
add_candidate-fits p ps h f = elim (Bool-cases (any (has_alias p.alias) ps)) [
  | inl e ↦ rw e f
  | inr e ↦ rw e (appended ps f)
]
  where
    appended :
        (qs : List AliasPayload)
        → any is_out_of_range qs ≡ false
        → any is_out_of_range (qs ++ p ∷ []) ≡ false
    appended [] g = rw h refl
    appended (q ∷ qs) g = elim (Bool-cases (is_out_of_range q)) [
      | inl b ↦ absurd (ground arith)
      | inr b ↦ rw b (appended qs (rw b at g))
    ]

module _ (o : Outside) (v : ℕ) where
  insert_all-append :
      (rows : List AliasEntry) (ps : List AliasPayload) (p : AliasPayload)
      → insert_all o v rows (ps ++ p ∷ []) ≡ insert o v (insert_all o v rows ps) p
  insert_all-append rows [] p = refl
  insert_all-append rows (x ∷ ps) p = insert_all-append (insert o v rows x) ps p

  flush_all-insert_all :
      (ps : List AliasPayload) (rows written : List AliasEntry)
      → flush_all o v ps rows ≡ some written
      → written ≡ insert_all o v rows ps
  unfolding flush_all
  flush_all-insert_all [] rows written h = ground arith
  flush_all-insert_all (p ∷ ps) rows written h = elim (Bool-cases (accepts o v rows p)) [
    | inl e ↦ rw e (flush_all-insert_all ps (rows ++ inserted_row v p ∷ []) written (rw e at h))
    | inr e ↦ absurd (ground arith)
  ]

  add_each-insert_all :
      (ps : List AliasPayload) (rows : List AliasEntry)
      → (add_each o v ps rows).1 ≡ insert_all o v rows ps
  unfolding add_each
  add_each-insert_all [] rows = refl
  add_each-insert_all (p ∷ ps) rows = elim (Bool-cases (accepts o v rows p)) [
    | inl e ↦ rw e (add_each-insert_all ps (rows ++ inserted_row v p ∷ []))
    | inr e ↦ rw e (add_each-insert_all ps rows)
  ]

  write_new-insert_all :
      (ps : List AliasPayload) (rows : List AliasEntry)
      → (write_new o v ps rows).1 ≡ insert_all o v rows ps
  unfolding write_new
  write_new-insert_all ps rows = elim (Option-cases (flush_all o v ps rows)) [
    | inl e ↦ rw (e, write_new) (add_each-insert_all ps rows)
    | inr (t, e) ↦ rw (e, write_new) (flush_all-insert_all ps rows t e)
  ]

  -- A row that is refused stays refused.
  insert-refused :
      (rows : List AliasEntry) (p q : AliasPayload)
      → accepts o v rows p ≡ false
      → accepts o v (insert o v rows q) p ≡ false
  insert-refused rows p q h = elim (Bool-cases (accepts o v rows q)) [
    | inr e ↦ rw e h
    | inl e ↦ rw e (elim (Bool-cases (o.has_version v)) [
      | inr n ↦ rw n refl
      | inl y ↦
          rw (any-append (is_alias_of v p.alias) (inserted_row v q) rows (ground arith))
            (ground arith)
    ])
  ]

  insert_all-refused :
      (rows : List AliasEntry) (p : AliasPayload) (ps : List AliasPayload)
      → accepts o v rows p ≡ false
      → accepts o v (insert_all o v rows ps) p ≡ false
  insert_all-refused rows p [] h = h
  insert_all-refused rows p (q ∷ ps) h =
      insert_all-refused (insert o v rows q) p ps (insert-refused rows p q h)

  is_alias_of-inserted :
      (rows : List AliasEntry) (p : AliasPayload) → is_alias_of v p.alias (inserted_row v p) ≡ true
  is_alias_of-inserted rows p = rw ((==_iff v v).1 refl) (eq_refl p.alias)

  -- A second insert under the same alias is refused.
  insert-settled :
      (rows : List AliasEntry) (p : AliasPayload) → accepts o v (insert o v rows p) p ≡ false
  insert-settled rows p = elim (Bool-cases (accepts o v rows p)) [
    | inr e ↦ rw e e
    | inl e ↦ rw e (
        rw
          (any-append_new (is_alias_of v p.alias) (inserted_row v p) rows
            (is_alias_of-inserted rows p))
          (ground arith))
  ]

  pub insert_all-settled :
      (rows : List AliasEntry) (p : AliasPayload) (ps : List AliasPayload)
      → any (has_alias p.alias) ps ≡ true
      → accepts o v (insert_all o v rows ps) p ≡ false
  insert_all-settled rows p [] h = absurd (ground arith)
  insert_all-settled rows p (q ∷ ps) h = elim (Bool-cases (has_alias p.alias q)) [
    | inl e ↦ insert_all-refused (insert o v rows q) p ps (
        ap (λ a. o.has_version v && not (any (is_alias_of v a) (insert o v rows q)))
          (sym ((eq_iff q.alias p.alias).0 e))
        ∙ insert-settled rows q)
    | inr e ↦ insert_all-settled (insert o v rows q) p ps (ground arith)
  ]

  insert_all-add_candidate :
      (rows : List AliasEntry) (p : AliasPayload) (ps : List AliasPayload)
      → insert_all o v rows (add_candidate p ps) ≡ insert o v (insert_all o v rows ps) p
  insert_all-add_candidate rows p ps = elim (Bool-cases (any (has_alias p.alias) ps)) [
    | inl e ↦ rw (e, insert_all-settled rows p ps e) refl
    | inr e ↦ rw e (insert_all-append rows ps p)
  ]

  insert_taken :
      (rows : List AliasEntry) (p : AliasPayload) → (register_row o v p rows).1 ≡ insert o v rows p
  insert_taken rows p = elim (Bool-cases (accepts o v rows p)) [
    | inl e ↦ rw e refl
    | inr e ↦ rw e refl
  ]

  -- The items as inserts.
  collect-register_all :
      (items : List (Option AliasItem)) (rows : List AliasEntry) (ps : List AliasPayload)
      → all_fit o items ≡ true
      → register_all o v items (insert_all o v rows ps)
        ≡ ok (insert_all o v rows (collect o items ps))
  unfolding collect register_alias
  collect-register_all [] rows ps h = refl
  collect-register_all (none ∷ items) rows ps h = collect-register_all items rows ps h
  collect-register_all (some i ∷ items) rows ps h = elim (Option-cases (payload_of o i)) [
    | inl e ↦ rw (e, register_alias) (collect-register_all items rows ps (rw e at h))
    | inr (p, e) ↦
        let (fits, rest) = all_fit-cons o i items p e h in
        let t = insert_all o v rows ps in
        rw (e, register_alias)
          (rw fits (
            ap (register_all o v items) (insert_taken t p)
            ∙ ap (register_all o v items) (sym (insert_all-add_candidate rows p ps))
            ∙ collect-register_all items rows (add_candidate p ps) rest))
  ]

  insert-keeps_any :
      (q : AliasEntry → Bool) (rows : List AliasEntry) (p : AliasPayload)
      → any q rows ≡ true
      → any q (insert o v rows p) ≡ true
  insert-keeps_any q rows p h = elim (Bool-cases (accepts o v rows p)) [
    | inl e ↦ rw e (any-append q (inserted_row v p) rows h)
    | inr e ↦ rw e h
  ]

  refused_by_alias :
      (rows : List AliasEntry) (p : AliasPayload)
      → any (is_alias_of v p.alias) rows ≡ true
      → accepts o v rows p ≡ false
  refused_by_alias rows p h = ground (arith, h)

  -- A row that the query has seen is refused, so leaving it out changes nothing.
  insert_all-select :
      (seen rows : List AliasEntry) (ps : List AliasPayload)
      → ((alias : String)
          → any (is_alias_of v alias) seen ≡ true
          → any (is_alias_of v alias) rows ≡ true)
      → insert_all o v rows (select (λ p. not (any (is_alias_of v p.alias) seen)) ps)
        ≡ insert_all o v rows ps
  insert_all-select seen rows [] h = refl
  insert_all-select seen rows (p ∷ ps) h = elim (Bool-cases (any (is_alias_of v p.alias) seen)) [
    | inl e ↦ rw e (rw (refused_by_alias rows p (h p.alias e)) (insert_all-select seen rows ps h))
    | inr e ↦ rw e (
        insert_all-select seen (insert o v rows p) ps
          (λ alias k. insert-keeps_any (is_alias_of v alias) rows p (h alias k)))
  ]

  any-concat :
      (q : AliasEntry → Bool) (seen late : List AliasEntry)
      → any q seen ≡ true
      → any q (seen ++ late) ≡ true
  any-concat q [] late h = absurd (ground arith)
  any-concat q (r ∷ rs) late h = elim (Bool-cases (q r)) [
    | inl e ↦ rw e refl
    | inr e ↦ rw e (any-concat q rs late (rw e at h))
  ]

-- What a bulk registration adds fits when what is written of each item does.
collect-fit :
    (o : Outside) (items : List (Option AliasItem)) (ps : List AliasPayload)
    → all_fit o items ≡ true
    → any is_out_of_range ps ≡ false
    → any is_out_of_range (collect o items ps) ≡ false
unfolding collect
collect-fit o [] ps h f = f
collect-fit o (none ∷ items) ps h f = collect-fit o items ps h f
collect-fit o (some i ∷ items) ps h f = elim (Option-cases (payload_of o i)) [
  | inl e ↦ rw e (collect-fit o items ps (rw e at h) f)
  | inr (p, e) ↦
      let (fits, rest) = all_fit-cons o i items p e h in
      rw e (collect-fit o items (add_candidate p ps) rest (add_candidate-fits p ps fits f))
]

any-select_none :
    (q r : AliasPayload → Bool) (ps : List AliasPayload)
    → any q ps ≡ false
    → any q (select r ps) ≡ false
any-select_none q r [] h = refl
any-select_none q r (p ∷ ps) h = elim (Bool-cases (r p)) [
  | inl e ↦ rw e (ground (arith, any-select_none q r ps))
  | inr e ↦ rw e (any-select_none q r ps (ground arith))
]

-- Where what is written of each item fits the columns, a bulk registration and the single
-- registrations of its items, in their order, both succeed and leave the same table, up to the ids,
-- where `late` is what others add between the query for the aliases and the write.
pub bulk_register-register_all :
    (o : Outside) (version : ℕ) (items : List (Option AliasItem)) (seen late : List AliasEntry)
    → all_fit o items ≡ true
    → (written : ℕ) × (after : List AliasEntry) × (bulk_register o version items seen (seen ++ late)
        ≡ ok (written, after))
      × (register_all o version items (seen ++ late) ≡ ok after)
unfolding bulk_register
bulk_register-register_all o version items seen late h =
    let cs = collect o items [] in
    let new = new_rows o version items seen in
    let fits =
      any-select_none is_out_of_range (λ p. not (any (is_alias_of version p.alias) seen)) cs
        (collect-fit o items [] h refl) in
    let same =
      write_new-insert_all o version new (seen ++ late)
      ∙ insert_all-select o version seen (seen ++ late) cs
          (λ alias. any-concat o version (is_alias_of version alias) seen late) in
    let after = (write_new o version new (seen ++ late)).1 in
    (
      (write_new o version new (seen ++ late)).0,
      after,
      rw fits refl,
      collect-register_all o version items (seen ++ late) [] h ∙ ap ok (sym same),
    )
