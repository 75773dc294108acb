-- ===== src/System.antt =====
-- The services together: what queues a call, retries or removes an order, hands a call to an agent,
-- polls, and applies a report, as steps on one database. What the merchant writes by hand (PATCH of
-- an order or of a call) is no step: it may set any status. `queue` and `queueAllPending` read and
-- write in one step here, where the source has no transaction.
pub mod Evolution
use ordely.Common.{ℕ, String, Bool, Option, ◌≡◌, subst, final}
use ordely.Store.{Call, Db, OnePending, emit}
use ordely.Voice.Rules.{Number}
use ordely.Voice.CallCallback.{VoiceCallResult, apply_result}
use ordely.Voice.CallCallback.Pending.{apply_result-OnePending}
use ordely.Voice.VoiceCallbacks.{VoiceResultDto, apply_report}
use ordely.Voice.VoiceCallbacks.Pending.{apply_report-OnePending}
use ordely.Common.Text.{Text}
use ordely.Voice.VoiceDispatcher.{Task, Sent, run_pass}
use ordely.Voice.VoiceDispatcher.Queue.{run_pass-OnePending}
use ordely.Orders.{CreateOrderDto, create, remove}
use ordely.Orders.Removal.{remove-OnePending}
use ordely.Calls.Policy.{LocalClock}
use ordely.Calls.Service.{queue, queue_all_pending, retry_after_review}
use ordely.Calls.Service.Queueing.{queue-OnePending}
use ordely.Calls.Service.QueueAll.{queue_all_pending-OnePending}
use ordely.Calls.Service.Review.{retry_after_review-OnePending}
use ordely.Calls.Dispatcher.{VoiceCallTask, StartTaskResult, dispatch_call}
use ordely.Calls.Dispatcher.Effects.{dispatch_call-OnePending}
use ordely.Calls.Orchestrator.{poll_pass}
use ordely.Calls.Orchestrator.Pass.{poll_pass-OnePending}

-- The clock of the shops, the least confidence, what the agent answers to a task, and whether it
-- has room for a call. A step carries the instant at which it runs; a report carries the row of
-- its call as it was read, which may be older than the database.
module _ (clock : LocalClock) (min : Number) (start_task : VoiceCallTask → StartTaskResult)
    (has_capacity : ℕ → Bool) where
  pub data Step (before after : Db) : Type 0 where
    queued :
        (now boutique_id order_id : ℕ)
        → final (queue clock now boutique_id order_id) before ≡ after
        → Step before after
    queued_all :
        (now boutique_id : ℕ)
        → (queue_all_pending clock now boutique_id before).1 ≡ after
        → Step before after
    created :
        (now boutique_id : ℕ) (dto : CreateOrderDto)
        → (create now boutique_id dto before).1 ≡ after
        → Step before after
    retried :
        (now boutique_id order_id : ℕ)
        → final (retry_after_review now boutique_id order_id) before ≡ after
        → Step before after
    dispatched :
        (now : ℕ) (uuid : String) (boutique_id call_id active : ℕ)
        → (final
            (dispatch_call clock now uuid start_task boutique_id call_id)
            (record { db = before; active_dispatches = active })).db
          ≡ after
        → Step before after
    polled :
        (now : ℕ) (uuid : String) (cursor : Option ℕ) (active : ℕ)
        → (poll_pass clock now uuid start_task has_capacity cursor
            (record { db = before; active_dispatches = active })).1.db
          ≡ after
        → Step before after
    answered :
        (now : ℕ) (result : VoiceCallResult) (read : Call)
        → (apply_result min now result read before).1 ≡ after
        → Step before after
    reported :
        (dto : VoiceResultDto) (read : Call)
        → (apply_report min dto read before).1 ≡ after
        → Step before after
    ticked :
        (send : Task → Sent) (test_destination : Option Text) (timeout now : ℕ)
        → (run_pass send test_destination timeout now before).1 ≡ after
        → Step before after
    removed :
        (boutique_id id : ℕ) → final (remove boutique_id id) before ≡ after → Step before after

  pub data Reach : Db → Db → Type 0 where
    stay : (db : Db) → Reach db db
    go : (before middle after : Db) → Step before middle → Reach middle after → Reach before after

  Step-OnePending : (before after : Db) → Step before after → OnePending before → OnePending after
  Step-OnePending before after (Step.queued now b o e) one =
      subst OnePending e (queue-OnePending clock now b o before one)
  Step-OnePending before after (Step.queued_all now b e) one =
      subst OnePending e (queue_all_pending-OnePending clock now b before one)
  Step-OnePending before after (Step.created now b dto e) one =
      subst OnePending e (unfold create emit in one)
  Step-OnePending before after (Step.retried now b o e) one =
      subst OnePending e (retry_after_review-OnePending now b o before one)
  Step-OnePending before after (Step.dispatched now uuid b c active e) one =
      subst OnePending e (dispatch_call-OnePending clock now uuid start_task b c _ one)
  Step-OnePending before after (Step.polled now uuid cursor active e) one =
      subst OnePending e (poll_pass-OnePending clock now uuid start_task has_capacity cursor _ one)
  Step-OnePending before after (Step.answered now result read e) one =
      subst OnePending e (apply_result-OnePending min now result read before one)
  Step-OnePending before after (Step.reported dto read e) one =
      subst OnePending e (apply_report-OnePending min dto read before one)
  Step-OnePending before after (Step.ticked send dest timeout now e) one =
      subst OnePending e (run_pass-OnePending send dest timeout now before one)
  Step-OnePending before after (Step.removed b id e) one =
      subst OnePending e (remove-OnePending b id before one)

  -- No order has two pending calls in a database that is reached, by any of these steps
  -- in any order, from one where no order has two.
  pub Reach-OnePending :
      (before after : Db) → Reach before after → OnePending before → OnePending after
  Reach-OnePending before after (Reach.stay db) one = one
  Reach-OnePending before after (Reach.go a middle b s r) one =
      Reach-OnePending middle after r (Step-OnePending before middle s one)
