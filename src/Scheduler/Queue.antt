-- ===== src/Scheduler/Queue.antt =====
-- The order in which queued tasks of a user are dispatched: `order_by(priority, queue_seq, id)` of
-- `_reserve_dispatch_batch`. A missing `queue_seq` comes last, as in PostgreSQL.
pub mod Order
use ai_jin_shu.Common.{
  ℕ, ◌≤◌, ◌≡◌, refl, Bool, true, false, ◌&&◌, ◌||◌, Option, none, some, String, List, [], ◌∷◌,
  str_eq, ltb, leb, ◌==◌, select, take, All, if◌then◌else◌, arith, Bool-cases, inl, inr,
}
use ai_jin_shu.Common.Sorting.{sort_by}
use ai_jin_shu.Tasks.{CreationTask, is_queued}

abbrev pub leb_seq : Option ℕ → Option ℕ → Bool
leb_seq a none = true
leb_seq none (some b) = false
leb_seq (some a) (some b) = leb a b

abbrev pub eq_seq : Option ℕ → Option ℕ → Bool
eq_seq none none = true
eq_seq (some a) (some b) = a == b
eq_seq a b = false

abbrev pub comes_first : CreationTask → CreationTask → Bool
comes_first a b =
    ltb a.priority b.priority
    || (a.priority == b.priority
        && (if eq_seq a.queue_seq b.queue_seq
            then leb a.id b.id
            else leb_seq a.queue_seq b.queue_seq))

abbrev pub sort : List CreationTask → List CreationTask
sort ts = sort_by comes_first ts

abbrev pub waits_for : String → CreationTask → Bool
waits_for uuid t = str_eq t.user_uuid uuid && is_queued t.status

-- The first `n` queued tasks of the user.
unfoldable pub next_queued : ℕ → String → List CreationTask → List CreationTask
next_queued n uuid tasks = take n (sort (select (waits_for uuid) tasks))
