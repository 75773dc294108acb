-- ===== src/Tests/Requests.antt =====
-- Examples of the theorems on queueing a call, on the retry after a review and on the whole system.
use ordely.Common.{
  ◌≤◌, ◌≡◌, refl, none, some, [], ◌∷◌, arith, err, conflict, result, final, count, find, select,
  update, map, ◌&&◌, ◌==◌,
}
use ordely.Store.{
  OrderStatus, Call, Db, OnePending, call_pending, calls_of, new_call, create_call, call_hours,
  boutique_of, order_of, update_call, emit,
}
use ordely.Voice.CallCallback.{default_min_confidence}
use ordely.Calls.Policy.{next_attempt_number, is_within_call_window, parse_clock}
use ordely.Calls.Orchestrator.{
  poll_pass, expire_stale_calls, expire_calls, after_cursor, poll_page, poll_orders, poll_order,
}
use ordely.Calls.Dispatcher.{dispatch_call, dispatch_body}
use ordely.Calls.Service.{
  queue, queue_all_pending, retry_after_review, find_order, insert_call, reopen,
}
use ordely.System.{Step, Reach, Reach-OnePending}
use ordely.System.Evolution.{Reach-Life}
use ordely.Lifecycle.{LivesOn}
use ordely.Calls.Service.QueueAll.{queue_all_pending-OnePending}
use ordely.Tests.{
  order_with, tunis, eleven, fresh, calling, db_with, unanswered, accepts, has_room, over,
}

abbrev first_call : Call
first_call = new_call 3 eleven 7 1

abbrev given_up : Db
given_up = db_with OrderStatus.unreachable (record unanswered { attempt = 3 } ∷ [])

abbrev fourth_call : Call
fourth_call = new_call 3 eleven 7 4

retry_while_busy : result (retry_after_review eleven 1 7) calling ≡ err conflict
unfolding retry_after_review reopen find_order find
retry_while_busy = refl

none_yet : OnePending fresh
unfolding count
none_yet order_id = omega arith

abbrev queued_db : Db
queued_db = final (queue tunis eleven 1 7) fresh

abbrev polled_db : Db
polled_db = (poll_pass tunis eleven "task" accepts has_room none (over queued_db)).1.db

-- A call is queued, then a pass of the orchestrator hands it to the agent.
Reach-OnePending_example : count (λ c. c.order_id == 7 && call_pending c.status) polled_db.calls ≤ 1
Reach-OnePending_example =
    Reach-OnePending tunis default_min_confidence accepts has_room fresh polled_db
      (Reach.go fresh queued_db polled_db (Step.queued eleven 1 7 refl) (
        Reach.go queued_db polled_db polled_db (Step.polled eleven "task" none 0 refl)
          (Reach.stay polled_db)))
      none_yet 7

-- The pass has handed the queued call to the agent.
polled_calls : map (λ c. c.transport_phase) polled_db.calls ≡ some "dispatched" ∷ []
unfolding queue find_order insert_call create_call next_attempt_number is_within_call_window
    parse_clock call_hours boutique_of find calls_of select emit poll_pass expire_stale_calls
    poll_page poll_orders poll_order after_cursor expire_calls dispatch_call dispatch_body
    update_call update order_of
polled_calls = refl

Reach-Life_example :
    LivesOn (order_with OrderStatus.pending) (find (λ x. x.id == 7) polled_db.orders)
unfolding find
Reach-Life_example =
    Reach-Life tunis default_min_confidence accepts has_room fresh polled_db
      (Reach.go fresh queued_db polled_db (Step.queued eleven 1 7 refl) (
        Reach.go queued_db polled_db polled_db (Step.polled eleven "task" none 0 refl)
          (Reach.stay polled_db)))
      7 (order_with OrderStatus.pending) refl (tt, (tt, tt))

queue_all_pending-OnePending_example : OnePending (queue_all_pending tunis eleven 1 fresh).1
queue_all_pending-OnePending_example = queue_all_pending-OnePending tunis eleven 1 fresh none_yet
