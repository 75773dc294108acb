-- ===== src/Voice/VoiceCallbacks/Evolution.antt =====
-- What the transaction of `result` in voice-callbacks.service.ts does to the orders.
use ordely.Common.{Bool-cases, inl, inr, ◌==◌, leb, if◌then◌else◌, count, none, some}
use ordely.Lifecycle.{Moves, Evolves, Evolves-refl}
use ordely.Store.{Call, Db, OrderStatus, pending_call}
use ordely.Calls.Policy.{max_attempts}
use ordely.Calls.Orchestrator.Evolution.{settle_order-Evolves}
use ordely.Voice.Rules.{Number, Outcome, decide_outcome}
use ordely.Voice.VoiceCallbacks.{VoiceResultDto, apply_report, report_of, move_order, order_verdict}

give_up-Evolves :
    (outcome : Outcome) (call : Call) (db : Db)
    → Evolves db.orders
        (move_order outcome call.order_id
          (if leb max_attempts call.attempt then some OrderStatus.unreachable else none)
          db).1.orders
give_up-Evolves outcome call db = elim (Bool-cases (leb max_attempts call.attempt)) [
  | inl last ↦ rw last (settle_order-Evolves call.order_id OrderStatus.unreachable db Moves.give_up)
  | inr more ↦ rw more (Evolves-refl db.orders)
]

move_order-Evolves :
    (outcome : Outcome) (call : Call) (db : Db)
    → Evolves db.orders
        (move_order outcome call.order_id (order_verdict outcome call.attempt) db).1.orders
unfolding order_verdict
move_order-Evolves Outcome.confirmed call db =
    settle_order-Evolves call.order_id OrderStatus.confirmed db Moves.confirm
move_order-Evolves Outcome.cancelled call db =
    settle_order-Evolves call.order_id OrderStatus.cancelled db Moves.cancel
move_order-Evolves Outcome.no_answer call db = give_up-Evolves Outcome.no_answer call db
move_order-Evolves Outcome.unresolved call db = give_up-Evolves Outcome.unresolved call db

-- A report changes orders along their life only.
pub apply_report-Evolves :
    (min : Number) (dto : VoiceResultDto) (call : Call) (db : Db)
    → Evolves db.orders (apply_report min dto call db).1.orders
unfolding apply_report
apply_report-Evolves min dto call db =
    elim (Bool-cases (count (pending_call call.id) db.calls == 0)) [
      | inl closed ↦ rw closed (Evolves-refl db.orders)
      | inr pending ↦ rw pending (move_order-Evolves (decide_outcome (report_of dto) min) call _)
    ]
