-- ===== src/Voice/CallCallback/Pending.antt =====
-- What the transaction of `handleResult` does to the pending calls of an order.
use ordely.Common.{
  ℕ, ◌≡◌, refl, false, arith, if◌then◌else◌, ◌==◌, leb, Bool-cases, inl, inr, count, update,
}
use ordely.Store.{
  Call, Db, OrderStatus, OnePending, call_pending, pending_call, pending_order, settle_order,
}
use ordely.Calls.Pending.{update-OnePending}
use ordely.Voice.Rules.{Number, Outcome, decide_outcome}
use ordely.Voice.CallCallback.{
  VoiceCallResult, Closing, apply_result, closing_of, decide_order, settle_outcome, write_result,
  report_of, policy_blocked, write_closing,
}
use ordely.Calls.Policy.{max_attempts}

closing_of-ends :
    (outcome : Outcome) (result : VoiceCallResult) (attempt : ℕ)
    → call_pending (closing_of outcome result attempt).status ≡ false
unfolding closing_of
closing_of-ends Outcome.confirmed result attempt = refl
closing_of-ends Outcome.cancelled result attempt = refl
closing_of-ends Outcome.no_answer result attempt = ground arith
closing_of-ends Outcome.unresolved result attempt = ground arith

decide_order-OnePending :
    (status : OrderStatus) (call : Call) (closing : Closing) (db : Db)
    → OnePending db
    → OnePending (decide_order status call closing db).1
unfolding decide_order settle_order
decide_order-OnePending status call closing db one =
    elim (Bool-cases (count (pending_order call.order_id) db.orders == 0)) [
      | inl settled ↦ rw settled (
          update-OnePending (λ c. c.id == call.id) (write_closing policy_blocked) db
            (record db {
              calls = update (λ c. c.id == call.id) (write_closing policy_blocked) db.calls;
            })
            one (λ c. refl) (λ c _. ground arith) refl)
      | inr waiting ↦ rw waiting one
    ]

closed_order-OnePending :
    (call : Call) (db : Db)
    → OnePending db
    → OnePending (
        if leb max_attempts call.attempt
        then settle_order call.order_id OrderStatus.unreachable db
        else db)
unfolding settle_order
closed_order-OnePending call db one = elim (Bool-cases (leb max_attempts call.attempt)) [
  | inl last ↦ rw last one
  | inr more ↦ rw more one
]

settle_outcome-OnePending :
    (outcome : Outcome) (call : Call) (closing : Closing) (db : Db)
    → OnePending db
    → OnePending (settle_outcome outcome call closing db).1
unfolding settle_outcome settle_order
settle_outcome-OnePending Outcome.confirmed call closing db one =
    decide_order-OnePending _ call closing db one
settle_outcome-OnePending Outcome.cancelled call closing db one =
    decide_order-OnePending _ call closing db one
settle_outcome-OnePending Outcome.no_answer call closing db one =
    closed_order-OnePending call db one
settle_outcome-OnePending Outcome.unresolved call closing db one =
    closed_order-OnePending call db one

-- The result of a call keeps at most one pending call for each order.
pub apply_result-OnePending :
    (min : Number) (now : ℕ) (result : VoiceCallResult) (call : Call) (db : Db)
    → OnePending db
    → OnePending (apply_result min now result call db).1
unfolding apply_result
apply_result-OnePending min now result call db one =
    elim (Bool-cases (count (pending_call call.id) db.calls == 0)) [
      | inl closed ↦ rw closed one
      | inr pending ↦
          let outcome = decide_outcome (report_of result) min in
          let closing = closing_of outcome result call.attempt in
          rw pending (
            settle_outcome-OnePending outcome call closing
              (record db {
                calls =
                    update (pending_call call.id) (write_result now result closing call) db.calls;
              })
              (update-OnePending (pending_call call.id) (write_result now result closing call) db
                (record db {
                  calls =
                      update (pending_call call.id) (write_result now result closing call) db.calls;
                })
                one (λ c. refl) (λ c _. ground (arith, closing_of-ends outcome result call.attempt))
                refl))
    ]
