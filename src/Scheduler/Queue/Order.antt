-- ===== src/Scheduler/Queue/Order.antt =====
-- The batch of `_reserve_dispatch_batch` in app/services/scheduler/scheduler_service.py holds the
-- first queued tasks of the user in the order of `order_by(priority, queue_seq, id)`.
use ai_jin_shu.Common.{ℕ, zero, suc, ◌≡◌, true, String, List, [], ◌∷◌, select, All}
use ai_jin_shu.Tasks.{CreationTask}
use ai_jin_shu.Scheduler.Queue.{comes_first, sort, waits_for}

abbrev pub IsBefore : CreationTask → CreationTask → Type 0
IsBefore a b = comes_first a b ≡ true

-- The tasks that a batch of `n` leaves in the queue.
abbrev pub drop : ℕ → List CreationTask → List CreationTask
drop zero ts = ts
drop (suc n) [] = []
drop (suc n) (t ∷ ts) = drop n ts

abbrev pub left_queued : ℕ → String → List CreationTask → List CreationTask
left_queued n uuid tasks = drop n (sort (select (waits_for uuid) tasks))

abbrev pub AllBefore : List CreationTask → List CreationTask → Type 0
AllBefore [] bs = Unit
AllBefore (a ∷ rest) bs = All (IsBefore a) bs × AllBefore rest bs
