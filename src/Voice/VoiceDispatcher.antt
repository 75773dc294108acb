-- ===== src/Voice/VoiceDispatcher.antt =====
-- backend/src/voice/voice-dispatcher.service.ts: handing queued calls to the Ringio agent, one at a
-- time. `send` is what the agent's `/api/task/start` answers; `timeout` is the configured number of
-- minutes in milliseconds. Calls stand in the table in the order of their creation.
pub mod Queue
use ordely.Common.{
  ℕ, ◌+◌, String, Bool, true, false, not, ◌&&◌, Option, none, some, List, take, if◌then◌else◌, ltb,
  ◌==◌, ◌orelse◌, is_set, find, select, update, count,
}
use ordely.Common.Text.{Text}
use ordely.Voice.Rules.{task_id_for, within_call_hours, is_empty}
use ordely.Store.{
  CallStatus, Order, Item, Boutique, Call, Db, order_pending, call_pending, pending_call, order_of,
  boutique_of, call_hours,
}

-- What `send` answers: the agent took the task, said that it is busy (409), or failed.
pub data Sent : Type 0 where
  started busy failed : Sent

pub data Pass : Type 0 where
  dispatched busy idle failed : Pass

pub record Task : Type 0 where
  pub task_id : Text
  pub destination : Text
  pub attempt : ℕ
  pub order_id : ℕ
  pub customer_name : Text
  pub items : List Item
  pub total : ℕ
  pub shop_name : String
  pub languages : List String

-- `VOICE_TEST_DESTINATION || order.phone`
abbrev destination_for : Option Text → Order → Text
destination_for none order = order.phone
destination_for (some t) order = if is_empty t then order.phone else t

unfoldable pub task_of : Option Text → Call → Order → Boutique → Task
unfolding task_id_for
task_of test_destination call order shop = record {
  task_id = task_id_for call.id;
  destination = destination_for test_destination order;
  attempt = call.attempt;
  order_id = order.id;
  customer_name = order.customer;
  items = order.items;
  total = order.total;
  shop_name = shop.name orelse "Ordely";
  languages = shop.call_languages;
}

-- `status: 'pending', dispatchedAt: { not: null }`
abbrev pub in_flight : Call → Bool
in_flight c = call_pending c.status && is_set c.dispatched_at

abbrev before : Option ℕ → ℕ → ℕ → Bool
before none timeout now = false
before (some at) timeout now = ltb (at + timeout) now

abbrev pub timed_out : ℕ → ℕ → Call → Bool
timed_out timeout now c = call_pending c.status && before c.dispatched_at timeout now

abbrev pub close_unanswered : Call → Call
close_unanswered c = record c { status = CallStatus.no_answer }

unfoldable pub expire_stale : ℕ → ℕ → Db → Db
unfolding update
expire_stale timeout now db = record db {
  calls = update (timed_out timeout now) close_unanswered db.calls;
}

abbrev order_waits : Option Order → Bool
order_waits none = false
order_waits (some o) = order_pending o.status

-- `status: 'pending', dispatchedAt: null, order: { status: 'pending' }`
abbrev pub is_queued : Db → Call → Bool
is_queued db c =
    call_pending c.status && not (is_set c.dispatched_at) && order_waits (order_of c.order_id db)

abbrev shop_takes_calls : Option Order → ℕ → Db → Bool
shop_takes_calls none now db = false
shop_takes_calls (some o) now db =
    let (start, end) = call_hours o.boutique_id db in within_call_hours start end now

-- The oldest of the first fifty queued calls whose shop takes calls now.
unfoldable pub next_call : ℕ → Db → Option Call
unfolding find select
next_call now db =
    find (λ c. shop_takes_calls (order_of c.order_id db) now db)
      (take 50 (select (is_queued db) db.calls))

-- `where: { id, dispatchedAt: null, status: 'pending' }, data: { dispatchedAt: now }`
abbrev pub claimable : ℕ → Call → Bool
claimable id c = c.id == id && not (is_set c.dispatched_at) && call_pending c.status

abbrev pub claim : ℕ → Call → Call
claim now c = record c { dispatched_at = some now }

abbrev pub unclaim : Call → Call
unclaim c = record c { dispatched_at = none }

unfoldable pub claim_call : ℕ → ℕ → Db → Db
unfolding update
claim_call now id db = record db { calls = update (claimable id) (claim now) db.calls }

-- Not taken: back in the queue for the next pass.
unfoldable pub put_back : ℕ → Db → Db
unfolding update
put_back id db = record db { calls = update (pending_call id) unclaim db.calls }

abbrev pub after_send : ℕ → Sent → Db → Pass × Db
after_send id Sent.started db = (Pass.dispatched, db)
after_send id Sent.busy db = (Pass.busy, put_back id db)
after_send id Sent.failed db = (Pass.failed, put_back id db)

-- The order of a call and its shop exist by the foreign keys.
abbrev pub answer : (Task → Sent) → Option Text → Call → Option Order → Option Boutique → Sent
answer send test_destination call (some o) (some b) = send (task_of test_destination call o b)
answer send test_destination call _ _ = Sent.failed

abbrev shop_of_order : Option Order → Db → Option Boutique
shop_of_order none db = none
shop_of_order (some o) db = boutique_of o.boutique_id db

abbrev pub sent_for : (Task → Sent) → Option Text → Call → Db → Sent
sent_for send test_destination call db =
    answer send test_destination call (order_of call.order_id db)
      (shop_of_order (order_of call.order_id db) db)

abbrev pub dispatch : (Task → Sent) → Option Text → ℕ → Option Call → Db → Pass × Db
dispatch send test_destination now none db = (Pass.idle, db)
dispatch send test_destination now (some call) db =
    if count (claimable call.id) db.calls == 0
    then (Pass.busy, db)
    else after_send call.id (sent_for send test_destination call db) (claim_call now call.id db)

-- The body of the `try` of `tick`.
unfoldable pub run_pass : (Task → Sent) → Option Text → ℕ → ℕ → Db → Pass × Db
run_pass send test_destination timeout now db =
    let fresh = expire_stale timeout now db in
    if ltb 0 (count in_flight fresh.calls)
    then (Pass.busy, fresh)
    else dispatch send test_destination now (next_call now fresh) fresh

pub record VoiceDispatcher : Type 0 where
  pub db : Db
  pub running : Bool

-- `tick`: a pass that begins while another runs does nothing.
unfoldable pub tick : (Task → Sent) → Option Text → ℕ → ℕ → VoiceDispatcher → Pass × VoiceDispatcher
tick send test_destination timeout now s =
    if s.running
    then (Pass.busy, s)
    else let (pass, db) = run_pass send test_destination timeout now s.db in
      (pass, record { db = db; running = false })
