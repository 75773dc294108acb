-- ===== src/Calls/Orchestrator.antt =====
-- backend/src/calls/orchestration/call-orchestrator.service.ts: the poll that calls waiting orders.
-- Orders stand in the table in the order of their creation and the calls of an order in the order
-- of their attempts, as the queries ask for them. The timer and the log are left out.
pub mod Pass
pub mod Polling
pub mod Evolution
use ordely.Common.{
  ℕ, ◌+◌, ◌*◌, String, Bool, true, false, not, ◌&&◌, ◌||◌, Option, none, some, List, [], ◌∷◌, map,
  length, take, if◌then◌else◌, leb, ltb, ◌==◌, is_set, truthy, find, select, update, count, final,
}
use ordely.Store.{
  OrderStatus, CallStatus, Order, Call, Db, order_pending, call_pending, pending_call, calls_of,
  call_hours, create_call, settle_order, attempt_of,
}
use ordely.Calls.Policy.{LocalClock, next_attempt_number, is_within_call_window}
use ordely.Calls.Dispatcher.{VoiceCallTask, StartTaskResult, Dispatcher, Dispatched, dispatch_call}

abbrev pub poll_batch_size : ℕ
poll_batch_size = 100

abbrev pub stale_call_timeout_ms : ℕ
stale_call_timeout_ms = 10 * 60000

-- `dispatchedAt < now - timeout`
abbrev dispatched_before : Option ℕ → ℕ → Bool
dispatched_before none now = false
dispatched_before (some at) now = ltb (at + stale_call_timeout_ms) now

abbrev pub is_stale : ℕ → Call → Bool
is_stale now c = call_pending c.status && dispatched_before c.dispatched_at now

abbrev pub expire : ℕ → Call → Call
expire now c = record c {
  status = CallStatus.no_answer;
  disposition = some "no_answer";
  completed_at = some now;
  failure_reason = some "Voice call timed out without a result";
}

-- One round of the loop: the row was pending when the list was read.
unfoldable pub expire_call : ℕ → Call → Db → Db
expire_call now call db =
    let n = count (pending_call call.id) db.calls in
    let closed = record db { calls = update (pending_call call.id) (expire now) db.calls } in
    if ltb 0 n && leb 3 call.attempt
    then settle_order call.order_id OrderStatus.unreachable closed
    else closed

unfoldable pub expire_calls : ℕ → List Call → Db → Db
expire_calls now [] db = db
expire_calls now (call ∷ calls) db = expire_calls now calls (expire_call now call db)

unfoldable pub expire_stale_calls : ℕ → Db → Db
expire_stale_calls now db = expire_calls now (select (is_stale now) db.calls) db

-- The rows after the one that the cursor names.
unfoldable pub after_cursor : Option ℕ → List Order → List Order
after_cursor none orders = orders
after_cursor (some id) [] = []
after_cursor (some id) (o ∷ orders) =
    let rest = after_cursor (some id) orders in if o.id == id then orders else rest

unfoldable pub poll_page : Option ℕ → Db → List Order
poll_page cursor db =
    take poll_batch_size (select (λ o. order_pending o.status) (after_cursor cursor db.orders))

unfoldable pub last_id : List Order → Option ℕ
last_id [] = none
last_id (o ∷ []) = some o.id
last_id (o ∷ p ∷ orders) = last_id (p ∷ orders)

-- The cursor of the next pass: a page that is not full was the last.
unfoldable pub next_cursor : List Order → Option ℕ
next_cursor orders = if ltb (length orders) poll_batch_size then none else last_id orders

module _ (clock : LocalClock) (now : ℕ) (uuid : String)
    (start_task : VoiceCallTask → StartTaskResult) (has_capacity : ℕ → Bool) where
  abbrev pub order_open : Order → Db → Bool
  order_open o db =
      let (start, end) = call_hours o.boutique_id db in is_within_call_window clock start end now

  -- `await this.dispatcher.dispatchCall(...)`, then `return`; what it throws is only logged.
  abbrev pub dispatch_and_stop : ℕ → ℕ → Dispatcher → Bool × Dispatcher
  dispatch_and_stop boutique_id call_id d =
      (true, final (dispatch_call clock now uuid start_task boutique_id call_id) d)

  -- A call that another writer created first is passed over (P2002).
  abbrev dispatch_created : ℕ → Option (Call × Db) → Dispatcher → Bool × Dispatcher
  dispatch_created boutique_id none d = (false, d)
  dispatch_created boutique_id (some (call, db)) d =
      dispatch_and_stop boutique_id call.id (record d { db = db })

  abbrev pub call_order : Order → Option ℕ → Dispatcher → Bool × Dispatcher
  call_order o none d = (false, d)
  call_order o (some attempt) d =
      if has_capacity o.id
      then dispatch_created o.boutique_id (create_call now o.id attempt d.db) d
      else (true, d)

  abbrev pub resume_or_call : Order → Option Call → Dispatcher → Bool × Dispatcher
  resume_or_call o (some c) d =
      if is_set (truthy c.task_id) || is_set c.dispatched_at
      then (false, d)
      else if has_capacity o.id
      then dispatch_and_stop o.boutique_id c.id d
      else (true, d)
  resume_or_call o none d =
      call_order o (next_attempt_number (map attempt_of (calls_of o.id d.db)) now) d

  -- One round of the loop: whether the pass ends here, and what it leaves.
  unfoldable pub poll_order : Order → Dispatcher → Bool × Dispatcher
  poll_order o d =
      if order_open o d.db
      then resume_or_call o (find (λ c. call_pending c.status) (calls_of o.id d.db)) d
      else (false, d)

  unfoldable pub poll_orders : List Order → Dispatcher → Dispatcher
  poll_orders [] d = d
  poll_orders (o ∷ orders) d =
      let (stop, after) = poll_order o d in
      elim stop [ true ↦ after | false ↦ poll_orders orders after ]

  -- The body of the `try`: the cursor of the next pass, and what the pass leaves.
  unfoldable pub poll_pass : Option ℕ → Dispatcher → Option ℕ × Dispatcher
  poll_pass cursor d =
      let fresh = record d { db = expire_stale_calls now d.db } in
      let page = poll_page cursor fresh.db in (next_cursor page, poll_orders page fresh)

-- The flags that keep passes apart. Callers other than the timer request polls while one runs.
pub record PollFlags : Type 0 where
  pub polling : Bool
  pub poll_requested : Bool

-- The head of `pollOnce`: whether a pass begins.
unfoldable pub enter_poll : PollFlags → Bool × PollFlags
enter_poll s =
    if s.polling
    then (false, record s { poll_requested = true })
    else (true, record s { polling = true })

-- The `finally` of `pollOnce`: whether it calls `pollOnce` again.
unfoldable pub leave_poll : PollFlags → Bool × PollFlags
leave_poll s = (s.poll_requested, record { polling = false; poll_requested = false })
