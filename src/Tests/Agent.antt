-- ===== src/Tests/Agent.antt =====
-- Examples of the theorems on handing calls to the voice agent, and on the orchestrator's polls.
use ordely.Common.{
  ◌≤◌, ◌≡◌, refl, true, false, [], ◌∷◌, arith, ok, err, conflict, result, count, find,
}
use ordely.Store.{OrderStatus, Db, OnePending, call_hours, boutique_of, order_of}
use ordely.Calls.Policy.{is_within_call_window, parse_clock}
use ordely.Calls.Dispatcher.{Dispatcher, capacity_unavailable, dispatch_call, dispatch_body}
use ordely.Calls.Orchestrator.Polling.{
  Polls, Step, Reach, idle, request, finish, polls_never_overlap, owed_poll_is_served,
}
use ordely.Calls.Orchestrator.{enter_poll}
use ordely.Tests.{tunis, eleven, db_with, waiting, accepts, defers, over}

abbrev queued : Db
queued = db_with OrderStatus.pending (waiting ∷ [])

-- A second dispatch while one is under way.
abbrev busy : Dispatcher
busy = record { db = queued; active_dispatches = 1 }

busy_conflict : result (dispatch_call tunis eleven "task" accepts 1 2) busy ≡ err conflict
unfolding dispatch_call
busy_conflict = refl

defers_capacity :
    result (dispatch_call tunis eleven "task" defers 1 2) (over queued)
    ≡ ok (capacity_unavailable waiting)
unfolding dispatch_call dispatch_body find order_of call_hours boutique_of is_within_call_window
    parse_clock
defers_capacity = refl

one_queued : OnePending queued
unfolding count
one_queued order_id = ground arith

-- The timer and a service request a poll, one after the other.
abbrev requested_twice : Polls
requested_twice = request (request idle)

twice : Reach idle requested_twice
twice = Reach.next (Reach.next Reach.here (Step.requested idle)) (Step.requested (request idle))

polls_never_overlap_example : requested_twice.running ≤ 1
polls_never_overlap_example = polls_never_overlap {s = requested_twice} twice

is_owed : requested_twice.owed ≡ true
unfolding request enter_poll
is_owed = refl

owed_poll_is_served_example :
    (requested_twice.running ≡ 1)
    × ((finish requested_twice).running ≡ 1)
    × ((finish requested_twice).owed ≡ false)
owed_poll_is_served_example = owed_poll_is_served {s = requested_twice} twice is_owed
