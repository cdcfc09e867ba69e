-- ===== src/Flags/Rollout.antt =====
-- What a write of app/core/feature_flags.py does to the evaluation of flags.
use ai_jin_shu.Common.{
  ℕ, ◌≤◌, ◌≡◌, refl, subst, Bool, true, false, not, some, String, List, [], ◌∷◌, ◌++◌, str_eq,
  eq_iff, ok, Result, ◌>>◌, guard, arith, or_else, ok-injective, inl, inr, Option-cases, length,
  ◌+◌, eq_refl,
}
use ai_jin_shu.Common.Table.{
  find, find-put_other, find-put_self, find-passes, length-append_one, find-append_one,
}
use ai_jin_shu.Flags.{
  FlagState, FlagRow, FlagDb, FlagChange, FlagError, named, get_flag_state, admits_novel, set_flag,
  store_row, stored, in_pct_range, overrides_controlled, changed, default_state, before_of,
}

-- A novel that the allow list or the rollout percentage of a flag admits is still admitted at every
-- higher percentage.
pub rollout_grows :
    (digest : ℕ → ℕ) (s : FlagState) (pct i : ℕ)
    → s.rollout_pct ≤ pct
    → admits_novel digest s (some i) ≡ true
    → admits_novel digest (record s { rollout_pct = pct }) (some i) ≡ true
unfolding admits_novel
rollout_grows digest s pct i h k = ground arith

find-append_other :
    (n m : String) (s : FlagState) (rows : List FlagRow)
    → str_eq n m ≡ false
    → find (named m) (rows ++ record { name = n; state = s } ∷ []) ≡ find (named m) rows
find-append_other n m s [] h = ground arith
find-append_other n m s (r ∷ rows) h = ground (arith, find-append_other n m s rows h)

other-name :
    (n m : String) (r : FlagRow) → str_eq n m ≡ false → named n r ≡ true → named m r ≡ false
other-name n m r h k = ground (arith, eq_iff r.name n, eq_iff r.name m, eq_iff n m)

-- What the store holds under a name after a write of it.
pub find-store_row :
    (n : String) (s : FlagState) (rows : List FlagRow)
    → find (named n) (store_row n s (find (named n) rows) rows)
      ≡ some (record { name = n; state = s })
find-store_row n s rows = elim (Option-cases (find (named n) rows)) [
  | inl e ↦
      rw (e, find-append_one (named n) (record { name = n; state = s }) rows, e)
        (rw (eq_refl n) refl)
  | inr (r, e) ↦ rw e (find-put_self (named n) _ rows r e (eq_refl n))
]

find-store_other :
    (n m : String) (s : FlagState) (rows : List FlagRow)
    → str_eq n m ≡ false
    → find (named m) (store_row n s (find (named n) rows) rows) ≡ find (named m) rows
find-store_other n m s rows h = elim (Option-cases (find (named n) rows)) [
  | inl e ↦ rw e (find-append_other n m s rows h)
  | inr (r, e) ↦ rw e (
      find-put_other (named n) (named m) (record { name = n; state = s }) rows r e
        (other-name n m r h (find-passes (named n) rows r e)) h)
]

-- What a successful write returns and leaves.
pub record IsStored (n m : String) (c : FlagChange) (s : FlagState) (db db' : FlagDb) : Type 0 where
  pub state : s ≡ changed c (or_else (before_of (find (named n) db.rows)) default_state)
  pub own : get_flag_state (some db'.rows) n ≡ some s
  pub other : get_flag_state (some db'.rows) m ≡ get_flag_state (some db.rows) m
  pub audited : length db'.audit ≡ length db.audit + 1

stored-IsStored :
    (strip : String → String) (n m : String) (c : FlagChange) (db : FlagDb)
    → str_eq n "" ≡ false
    → str_eq n m ≡ false
    → let s = changed c (or_else (before_of (find (named n) db.rows)) default_state) in
      IsStored n m c s db (stored strip n c db s)
unfolding get_flag_state
stored-IsStored strip n m c db e h =
    let s = changed c (or_else (before_of (find (named n) db.rows)) default_state) in
    record {
      state = refl;
      own = rw e (rw (find-store_row n s db.rows) refl);
      other = rw (find-store_other n m s db.rows h) refl;
      audited = omega (arith, length-append_one _ db.audit);
    }

guard-passes :
    {A : Type 0} (b : Bool) (e : FlagError) (m : Result FlagError A) (r : A)
    → (guard b e >> m) ≡ ok r
    → (b ≡ true) × (m ≡ ok r)
guard-passes true e m r h = (refl, h)
guard-passes false e m r h = absurd (ground arith)

-- A write that `set_flag` accepts is what the flag then reads as, leaves every other flag as it was,
-- and adds one audit row.
pub set_flag-IsStored :
    (strip : String → String) (n m : String) (c : FlagChange) (s : FlagState) (db db' : FlagDb)
    → str_eq n m ≡ false
    → set_flag strip n c db ≡ ok (s, db')
    → IsStored n m c s db db'
unfolding set_flag
set_flag-IsStored strip n m c s db db' h k =
    let (e, k₁) = guard-passes (not (str_eq n "")) _ _ (s, db') k in
    let (_, k₂) = guard-passes (not (str_eq (strip c.reason) "")) _ _ (s, db') k₁ in
    let (_, k₃) = guard-passes (not (str_eq (strip c.changed_by) "")) _ _ (s, db') k₂ in
    let (_, k₄) = guard-passes (in_pct_range c.rollout_pct) _ _ (s, db') k₃ in
    let (_, k₅) = guard-passes (not (overrides_controlled c.extra)) _ _ (s, db') k₄ in
    subst (λ (x : FlagState × FlagDb). IsStored n m c x.0 db x.1) (ok-injective _ (s, db') k₅)
      (stored-IsStored strip n m c db (ground arith) h)

-- The flag then has the state that the call returns.
pub set_flag-get :
    (strip : String → String) (n : String) (c : FlagChange) (s : FlagState) (db db' : FlagDb)
    → set_flag strip n c db ≡ ok (s, db')
    → get_flag_state (some db'.rows) n ≡ some s
unfolding set_flag
set_flag-get strip n c s db db' k =
    let (e, _) = guard-passes (not (str_eq n "")) _ _ (s, db') k in
    (set_flag-IsStored strip n "" c s db db' (ground arith) k).own

-- A call with a name, a reason and an author, a percentage and no controlled key among the others.
pub set_flag-ok :
    (strip : String → String) (n : String) (c : FlagChange) (db : FlagDb)
    → str_eq n "" ≡ false
    → str_eq (strip c.reason) "" ≡ false
    → str_eq (strip c.changed_by) "" ≡ false
    → in_pct_range c.rollout_pct ≡ true
    → overrides_controlled c.extra ≡ false
    → let s = changed c (or_else (before_of (find (named n) db.rows)) default_state) in
      set_flag strip n c db ≡ ok (s, stored strip n c db s)
unfolding set_flag
set_flag-ok strip n c db e₁ e₂ e₃ e₄ e₅ = rw (e₁, e₂, e₃, e₄, e₅) refl
