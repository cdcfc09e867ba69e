-- ===== src/Quota/Limits.antt =====
-- What the checks of app/services/quota.py guarantee.
use ai_jin_shu.Common.{
  ◌+◌, ◌≤◌, ◌<◌, ◌≡◌, refl, max, true, ◌↔◌, str_eq, none, some, List, [], ◌∷◌, ◌++◌, arith,
  Option-cases, inl, inr,
}
use ai_jin_shu.Common.Int.{ℤ, pos_part}
use ai_jin_shu.Common.Table.{find}
use ai_jin_shu.Tasks.{CreationTask}
use ai_jin_shu.Quota.{
  User, UserQuota, UsageLedger, of_user, new_quota, ensure_user_quota, used, billable,
  quota_verdict,
}
use ai_jin_shu.Quota.Calendar.{Moment}

-- A request passes exactly when the quota is active, the month's chapters and the requested ones
-- (at least one) fit the chapter limit, and the month's billable tokens are below the token limit.
pub quota_verdict_exact :
    (q : UserQuota) (u : User) (tasks : List CreationTask) (ledger : List UsageLedger)
    (now : Moment) (requested : ℤ)
    → (quota_verdict q u tasks ledger now requested ≡ none) ↔ (
        (str_eq q.status "active" ≡ true)
        × (used (λ r. r.chapters_generated) u.id now ledger + max 1 (pos_part requested)
            ≤ q.monthly_chapter_limit)
        × (used billable u.id now ledger < q.monthly_token_limit))
unfolding quota_verdict
quota_verdict_exact q u tasks ledger now requested = (ground arith, ground arith)

find-append_quota :
    (u : User) (q : UserQuota) (quotas : List UserQuota)
    → find (of_user u.id) quotas ≡ none
    → q.user_id ≡ u.id
    → find (of_user u.id) (quotas ++ q ∷ []) ≡ some q
find-append_quota u q [] h e = ground arith
find-append_quota u q (r ∷ rs) h e = ground (arith, find-append_quota u q rs)

ensure_old :
    (setting : ℤ) (u : User) (quotas : List UserQuota) (q : UserQuota)
    → find (of_user u.id) quotas ≡ some q
    → ensure_user_quota setting u quotas ≡ (q, quotas)
unfolding ensure_user_quota
ensure_old setting u quotas q e = rw (e, ensure_user_quota)

ensure_new :
    (setting : ℤ) (u : User) (quotas : List UserQuota)
    → find (of_user u.id) quotas ≡ none
    → ensure_user_quota setting u quotas ≡ (new_quota setting u, quotas ++ new_quota setting u ∷ [])
unfolding ensure_user_quota
ensure_new setting u quotas e = rw (e, ensure_user_quota)

-- A second call finds the row of the first: the quota is created once, and the answer is stable.
pub ensure_user_quota_idem :
    (setting later : ℤ) (u : User) (quotas : List UserQuota)
    → ensure_user_quota later u (ensure_user_quota setting u quotas).1
      ≡ ensure_user_quota setting u quotas
ensure_user_quota_idem setting later u quotas = elim (Option-cases (find (of_user u.id) quotas)) [
  | inl e ↦ rw (ensure_new setting u quotas e) (
      ensure_old later u _ (new_quota setting u)
        (find-append_quota u (new_quota setting u) quotas e (unfold new_quota in refl)))
  | inr (q, e) ↦ rw (ensure_old setting u quotas q e) (ensure_old later u quotas q e)
]
