-- ===== src/Voice/CallCallback/Evolution.antt =====
-- What the transaction of `handleResult` does to the orders.
use ordely.Common.{ℕ, Bool-cases, inl, inr, ◌==◌, leb, if◌then◌else◌, count}
use ordely.Lifecycle.{Moves, Evolves, Evolves-refl}
use ordely.Store.{Call, Db, OrderStatus, pending_call, pending_order, settle_order}
use ordely.Calls.Policy.{max_attempts}
use ordely.Calls.Orchestrator.Evolution.{settle_order-Evolves}
use ordely.Voice.Rules.{Number, Outcome, decide_outcome}
use ordely.Voice.CallCallback.{
  VoiceCallResult, Closing, apply_result, closing_of, decide_order, settle_outcome, report_of,
}

decide_order-Evolves :
    (status : OrderStatus) (call : Call) (closing : Closing) (db : Db)
    → Moves OrderStatus.pending status
    → Evolves db.orders (decide_order status call closing db).1.orders
unfolding decide_order
decide_order-Evolves status call closing db m =
    elim (Bool-cases (count (pending_order call.order_id) db.orders == 0)) [
      | inl settled ↦ rw settled (Evolves-refl db.orders)
      | inr waiting ↦ rw waiting (settle_order-Evolves call.order_id status db m)
    ]

give_up-Evolves :
    (call : Call) (db : Db)
    → Evolves db.orders
        (if leb max_attempts call.attempt
          then settle_order call.order_id OrderStatus.unreachable db
          else db).orders
give_up-Evolves call db = elim (Bool-cases (leb max_attempts call.attempt)) [
  | inl last ↦ rw last (settle_order-Evolves call.order_id OrderStatus.unreachable db Moves.give_up)
  | inr more ↦ rw more (Evolves-refl db.orders)
]

settle_outcome-Evolves :
    (outcome : Outcome) (call : Call) (closing : Closing) (db : Db)
    → Evolves db.orders (settle_outcome outcome call closing db).1.orders
unfolding settle_outcome
settle_outcome-Evolves Outcome.confirmed call closing db =
    decide_order-Evolves OrderStatus.confirmed call closing db Moves.confirm
settle_outcome-Evolves Outcome.cancelled call closing db =
    decide_order-Evolves OrderStatus.cancelled call closing db Moves.cancel
settle_outcome-Evolves Outcome.no_answer call closing db = give_up-Evolves call db
settle_outcome-Evolves Outcome.unresolved call closing db = give_up-Evolves call db

-- A result changes orders along their life only.
pub apply_result-Evolves :
    (min : Number) (now : ℕ) (result : VoiceCallResult) (call : Call) (db : Db)
    → Evolves db.orders (apply_result min now result call db).1.orders
unfolding apply_result
apply_result-Evolves min now result call db =
    elim (Bool-cases (count (pending_call call.id) db.calls == 0)) [
      | inl closed ↦ rw closed (Evolves-refl db.orders)
      | inr pending ↦
          let outcome = decide_outcome (report_of result) min in
          rw pending
            (settle_outcome-Evolves outcome call (closing_of outcome result call.attempt) _)
    ]
