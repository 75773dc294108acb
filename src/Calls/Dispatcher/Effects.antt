-- ===== src/Calls/Dispatcher/Effects.antt =====
-- What one dispatch of call-dispatcher.service.ts may change.
use ordely.Common.{
  ℕ, ◌≡◌, ◌⊎◌, refl, sym, subst, String, Bool, true, not, arith, leb, ◌==◌, ok, err, result, final,
  HttpError, find, Option-cases, Bool-cases, inl, inr, is_set, ◌&&◌, ◌||◌, truthy, holds,
}
use ordely.Store.{Call, Db, call_pending, OnePending, update_call, order_of, boutique_of}
use ordely.Calls.Pending.{update-OnePending}
use ordely.Calls.Policy.{LocalClock}
use ordely.Calls.Dispatcher.{
  VoiceCallTask, task_for, StartTaskResult, accepted, deferred, rejected, Dispatcher,
  outside_call_window, capacity_unavailable, callable, mark_dispatched, mark_rejected,
  record_answer, dispatch_body, dispatch_call, max_concurrency, shop_open,
}

abbrev refused : Call → Bool
refused call =
    not (call_pending call.status)
    || is_set (truthy call.task_id) && holds call.transport_phase "dispatched"

update_call-OnePending :
    (id : ℕ) (f : Call → Call) (db after : Db)
    → OnePending db
    → ((c : Call) → (f c).order_id ≡ c.order_id)
    → ((c : Call) → call_pending (f c).status ≡ true → call_pending c.status ≡ true)
    → after ≡ final (update_call id f) db
    → OnePending after
unfolding update_call
update_call-OnePending id f db after one same closes e =
    elim (Option-cases (find (λ c. c.id == id) db.calls)) [
      | inl missing ↦ subst OnePending {x = db} {y = after} (ground arith) one
      | inr (c, found) ↦
          update-OnePending (λ c. c.id == id) f db after one same (λ c _. closes c) (ground arith)
    ]

module _ (clock : LocalClock) (now : ℕ) (uuid : String)
    (start_task : VoiceCallTask → StartTaskResult) (boutique_id call_id : ℕ) where
  -- On every path, exceptions included, the counter of dispatches under way comes back to its value.
  pub dispatch_call-active :
      (d : Dispatcher)
      → (final (dispatch_call clock now uuid start_task boutique_id call_id) d).active_dispatches
        ≡ d.active_dispatches
  unfolding dispatch_call
  dispatch_call-active d = ground arith

  -- Dispatching writes calls only: whatever the agent answers, no order changes.
  pub dispatch_call-orders :
      (d : Dispatcher)
      → (final (dispatch_call clock now uuid start_task boutique_id call_id) d).db.orders
        ≡ d.db.orders
  unfolding dispatch_call dispatch_body update_call
  dispatch_call-orders d = ground arith

  -- A dispatch that is refused by an exception leaves the database as it was.
  pub dispatch_call_refused :
      (d : Dispatcher) {e : HttpError}
      → result (dispatch_call clock now uuid start_task boutique_id call_id) d ≡ err e
      → final (dispatch_call clock now uuid start_task boutique_id call_id) d ≡ d
  unfolding dispatch_call dispatch_body update_call
  dispatch_call_refused d h = ground arith

  -- A dispatch outside the shop's call hours, or that the agent defers, leaves everything as it was.
  pub dispatch_call_deferred :
      (d : Dispatcher) {c : Call}
      → (result (dispatch_call clock now uuid start_task boutique_id call_id) d
          ≡ ok (outside_call_window c))
        ⊎ (result (dispatch_call clock now uuid start_task boutique_id call_id) d
            ≡ ok (capacity_unavailable c))
      → final (dispatch_call clock now uuid start_task boutique_id call_id) d ≡ d
  unfolding dispatch_call dispatch_body update_call
  dispatch_call_deferred d h = ground arith

  -- Either nothing is written, or the agent's answer to a call that was found is recorded.
  dispatch_body-cases :
      (db : Db)
      → (final (dispatch_body clock now uuid start_task boutique_id call_id) db ≡ db)
        ⊎ ((call : Call) × (answer : StartTaskResult) × (final
                (dispatch_body clock now uuid start_task boutique_id call_id)
                db
              ≡ final (record_answer uuid now call answer) db))
  unfolding dispatch_body
  dispatch_body-cases db = elim (Option-cases (find (callable db boutique_id call_id) db.calls)) [
    | inl missing ↦ inl (ground arith)
    | inr (call, found) ↦ elim (Option-cases (order_of call.order_id db)) [
      | inl orphan ↦ inl (ground arith)
      | inr (order, owner) ↦
          elim (Bool-cases (refused call || not (shop_open clock now uuid start_task order db))) [
            | inl stopped ↦ inl (ground arith)
            | inr open_shop ↦ inr (
              call,
              start_task (task_for uuid boutique_id call order (boutique_of order.boutique_id db)),
              ground arith,
            )
          ]
    ]
  ]

  record_answer-OnePending :
      (call : Call) (answer : StartTaskResult) (db : Db)
      → OnePending db
      → OnePending (final (record_answer uuid now call answer) db)
  record_answer-OnePending call deferred db one = one
  record_answer-OnePending call accepted db one =
      update_call-OnePending call.id (mark_dispatched uuid now) db
        (final (record_answer uuid now call accepted) db) one (λ c. refl) (λ c p. p)
        (unfold update_call in ground arith)
  record_answer-OnePending call (rejected e) db one =
      update_call-OnePending call.id (mark_rejected uuid now e) db
        (final (record_answer uuid now call (rejected e)) db) one (λ c. refl) (λ c p. cc)
        (unfold update_call in ground arith)

  dispatch_body-OnePending :
      (db : Db)
      → OnePending db
      → OnePending (final (dispatch_body clock now uuid start_task boutique_id call_id) db)
  unfolding dispatch_body
  dispatch_body-OnePending db one = elim (dispatch_body-cases db) [
    | inl same ↦ subst OnePending (sym same) one
    | inr (call, answer, written) ↦
        subst OnePending (sym written) (record_answer-OnePending call answer db one)
  ]

  -- A dispatch keeps at most one pending call for each order.
  pub dispatch_call-OnePending :
      (d : Dispatcher)
      → OnePending d.db
      → OnePending (final (dispatch_call clock now uuid start_task boutique_id call_id) d).db
  unfolding dispatch_call
  dispatch_call-OnePending d one = elim (Bool-cases (leb max_concurrency d.active_dispatches)) [
    | inl busy ↦ rw (busy, final) one
    | inr free ↦ rw (free, final) (dispatch_body-OnePending d.db one)
  ]

  -- Where the agent defers every task, a dispatch changes nothing, whatever the call.
  dispatch_body_all_deferred :
      ((task : VoiceCallTask) → start_task task ≡ deferred)
      → (db : Db) → final (dispatch_body clock now uuid start_task boutique_id call_id) db ≡ db
  unfolding dispatch_body
  dispatch_body_all_deferred defers db =
      elim (Option-cases (find (callable db boutique_id call_id) db.calls)) [
        | inl missing ↦ ground arith
        | inr (call, found) ↦ elim (Option-cases (order_of call.order_id db)) [
          | inl orphan ↦ ground arith
          | inr (order, owner) ↦ ground (
            arith,
            defers (task_for uuid boutique_id call order (boutique_of order.boutique_id db)),
          )
        ]
      ]

  pub dispatch_call_all_deferred :
      (d : Dispatcher)
      → ((task : VoiceCallTask) → start_task task ≡ deferred)
      → final (dispatch_call clock now uuid start_task boutique_id call_id) d ≡ d
  unfolding dispatch_call
  dispatch_call_all_deferred d defers = ground (arith, dispatch_body_all_deferred defers d.db)
