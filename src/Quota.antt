-- ===== src/Quota.antt =====
-- app/services/quota.py, and the concurrency limit of
-- app/services/scheduler/concurrency_service.py: a user's plan, the monthly usage that the ledger
-- shows, and the record of a finished task's usage. The transactions are sequential here, so the
-- insert of `ensure_user_quota` meets no row of a concurrent request.
pub mod Calendar
pub mod Limits
pub mod Usage
use ai_jin_shu.Common.{
  ℕ, suc, ◌+◌, max, Bool, true, false, not, ◌&&◌, ◌||◌, Option, none, some, String, List, [], ◌∷◌,
  ◌++◌, str_eq, ltb, leb, ◌==◌, if◌then◌else◌,
}
use ai_jin_shu.Common.Int.{ℤ, pos, negsuc, pos_part}
use ai_jin_shu.Common.Table.{find, count}
use ai_jin_shu.Tasks.{Status, queued, dispatching, running, paused, CreationTask}
use ai_jin_shu.Quota.Calendar.{Moment, month_range_utc, in_range}

pub record User : Type 0 where
  pub id : ℕ
  pub uuid : String
  pub role : String

pub record UserQuota : Type 0 where
  pub user_id : ℕ
  pub plan_key : String
  pub max_concurrent_tasks : ℤ
  pub monthly_chapter_limit : ℕ
  pub monthly_token_limit : ℕ
  pub status : String

abbrev pub has_uuid : String → User → Bool
has_uuid u r = str_eq r.uuid u

abbrev pub of_user : ℕ → UserQuota → Bool
of_user i q = q.user_id == i

-- `max(1, int(setting or 1))` of the setting `creation_default_max_concurrent_tasks`.
abbrev pub default_limit : ℤ → ℕ
default_limit setting = max 1 (pos_part setting)

abbrev pub is_admin : User → Bool
is_admin u = str_eq u.role "admin"

-- The row that `ensure_user_quota` inserts.
unfoldable pub new_quota : ℤ → User → UserQuota
new_quota setting u = record {
  user_id = u.id;
  plan_key = if is_admin u then "team" else "free";
  max_concurrent_tasks =
      pos (if is_admin u then max 3 (default_limit setting) else default_limit setting);
  monthly_chapter_limit = if is_admin u then 10000000 else 1000000;
  monthly_token_limit = if is_admin u then 100000000000 else 10000000000;
  status = "active";
}

-- `ensure_user_quota`
unfoldable pub ensure_user_quota : ℤ → User → List UserQuota → UserQuota × List UserQuota
unfolding new_quota
ensure_user_quota setting u quotas = elim (find (of_user u.id) quotas) [
  | none ↦ (new_quota setting u, quotas ++ new_quota setting u ∷ [])
  | some q ↦ (q, quotas)
]

-- `max(1, configured) if configured > 0 else default_limit`
abbrev pub configured_limit : ℤ → ℤ → ℕ
configured_limit setting (pos n) = if n == 0 then default_limit setting else max 1 n
configured_limit setting (negsuc n) = default_limit setting

-- `get_user_concurrency_limit`
unfoldable pub get_user_concurrency_limit :
    ℤ → List User → String → List UserQuota → ℕ × List UserQuota
unfolding ensure_user_quota
get_user_concurrency_limit setting users uuid quotas = elim (find (has_uuid uuid) users) [
  | none ↦ (default_limit setting, quotas)
  | some u ↦ (
    configured_limit setting (ensure_user_quota setting u quotas).0.max_concurrent_tasks,
    (ensure_user_quota setting u quotas).1,
  )
]

-- `lock_user_quota_row`: it creates the quota row of a known user; the row lock is the
-- transaction's.
unfoldable pub lock_user_quota_row : ℤ → List User → String → List UserQuota → List UserQuota
unfolding ensure_user_quota
lock_user_quota_row setting users uuid quotas = elim (find (has_uuid uuid) users) [
  | none ↦ quotas
  | some u ↦ (ensure_user_quota setting u quotas).1
]

pub record UsageLedger : Type 0 where
  pub user_id : ℕ
  pub novel_id : ℕ
  pub task_id : String
  pub source : String
  pub input_tokens : ℕ
  pub output_tokens : ℕ
  pub billable_tokens : ℕ
  pub chapters_generated : ℕ
  pub estimated_cost : ℕ
  pub created_at : Moment

pub data QuotaReason : Type 0 where
  quota_suspended concurrency_limit_exceeded monthly_chapter_limit_exceeded : QuotaReason
  monthly_token_limit_exceeded : QuotaReason

-- `none` is QuotaCheckResult(True); the message is a function of the reason.
abbrev pub QuotaCheckResult : Type 0
QuotaCheckResult = Option QuotaReason

-- QUOTA_ENFORCE_CONCURRENCY_LIMIT
abbrev pub enforce_concurrency_limit : Bool
enforce_concurrency_limit = false

abbrev pub is_active : Status → Bool
is_active queued = true
is_active dispatching = true
is_active running = true
is_active paused = true
is_active s = false

abbrev pub active_of : String → CreationTask → Bool
active_of uuid t = str_eq t.user_uuid uuid && is_active t.status

-- `_ledger_billable_tokens_expr`
abbrev pub billable : UsageLedger → ℕ
billable r = if r.billable_tokens == 0 then r.input_tokens + r.output_tokens else r.billable_tokens

-- The sum of a column over a user's rows of the month of `now`.
unfoldable pub used : (UsageLedger → ℕ) → ℕ → Moment → List UsageLedger → ℕ
used column i now [] = 0
used column i now (r ∷ rs) =
    let rest = used column i now rs in
    if r.user_id == i && in_range (month_range_utc now) r.created_at then column r + rest else rest

-- `int(quota.max_concurrent_tasks or 1)`, for a comparison with a count: a negative limit is
-- reached by every count, as 0 is.
abbrev pub slots_or_one : ℤ → ℕ
slots_or_one (pos n) = if n == 0 then 1 else n
slots_or_one (negsuc n) = 0

abbrev pub concurrency_full : Bool → UserQuota → User → List CreationTask → Bool
concurrency_full enforced q u tasks =
    enforced && leb (slots_or_one q.max_concurrent_tasks) (count (active_of u.uuid) tasks)

-- The checks of `check_generation_quota` on the user's quota row.
unfoldable pub quota_verdict :
    UserQuota → User → List CreationTask → List UsageLedger → Moment → ℤ → QuotaCheckResult
unfolding used
quota_verdict q u tasks ledger now requested =
    if not (str_eq q.status "active")
    then some quota_suspended
    else if concurrency_full enforce_concurrency_limit q u tasks
    then some concurrency_limit_exceeded
    else if ltb q.monthly_chapter_limit
        (used (λ r. r.chapters_generated) u.id now ledger + max 1 (pos_part requested))
    then some monthly_chapter_limit_exceeded
    else if leb q.monthly_token_limit (used billable u.id now ledger)
    then some monthly_token_limit_exceeded
    else none

-- `check_generation_quota`
unfoldable pub check_generation_quota :
    ℤ
    → User
    → List UserQuota
    → List CreationTask
    → List UsageLedger
    → Moment
    → ℤ
    → QuotaCheckResult × List UserQuota
unfolding ensure_user_quota quota_verdict
check_generation_quota setting u quotas tasks ledger now requested =
    let (q, quotas') = ensure_user_quota setting u quotas in
    (quota_verdict q u tasks ledger now requested, quotas')
