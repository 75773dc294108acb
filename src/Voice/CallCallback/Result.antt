-- ===== src/Voice/CallCallback/Result.antt =====
-- What a reported result does to the calls and the orders, on every branch of `handleResult`. The
-- row `call` was read before the transaction; the database `db` is what the transaction finds.
use ordely.Common.{
  ℕ, ◌≤◌, ◌≡◌, refl, ◌∙◌, true, false, Option, none, some, arith, if◌then◌else◌, leb, ◌==◌, ==_iff,
  Bool-cases, inl, inr, find, count, written, find-update, find-count, find-holds, subst,
  find-update_other, update_of_count, sym,
}
use ordely.Voice.Rules.{Number, Outcome, decide_outcome}
use ordely.Store.{
  CallStatus, OrderStatus, Order, Call, Db, order_pending, call_pending, pending_call,
  pending_order, has_status, settle_order,
}
use ordely.Calls.Policy.{max_attempts}
use ordely.Voice.CallCallback.{
  VoiceCallResult, Closing, report_of, closing_of, decide_order, settle_outcome, apply_result,
}

abbrev pub find_call : ℕ → Db → Option Call
find_call id db = find (λ c. c.id == id) db.calls

-- The ids are keys of the two tables.
pub record HasKeys (db : Db) : Type 0 where
  pub calls_key : (id : ℕ) → count (λ c. c.id == id) db.calls ≤ 1
  pub orders_key : (id : ℕ) → count (λ o. o.id == id) db.orders ≤ 1

-- What a pending order becomes by a call with that outcome.
abbrev pub verdict : Outcome → ℕ → OrderStatus
verdict Outcome.confirmed attempt = OrderStatus.confirmed
verdict Outcome.cancelled attempt = OrderStatus.cancelled
verdict _ attempt =
    if leb max_attempts attempt then OrderStatus.unreachable else OrderStatus.pending

find-settle_order :
    (id k : ℕ) (s : OrderStatus) (db : Db)
    → find (λ o. o.id == id) (settle_order k s db).orders
      ≡ written (pending_order k) (has_status s) (find (λ o. o.id == id) db.orders)
unfolding settle_order
find-settle_order id k s db = find-update _ (pending_order k) (has_status s) db.orders (λ o. refl)

find-decide_order-orders :
    (id : ℕ) (s : OrderStatus) (call : Call) (closing : Closing) (db : Db)
    → find (λ o. o.id == id) (decide_order s call closing db).1.orders
      ≡ written (pending_order call.order_id) (has_status s) (find (λ o. o.id == id) db.orders)
unfolding decide_order
find-decide_order-orders id s call closing db =
    elim (Bool-cases (count (pending_order call.order_id) db.orders == 0)) [
      | inl none_pending ↦
          rw (none_pending, ← find-settle_order id call.order_id s db)
            (unfold settle_order in
              rw (
                update_of_count (pending_order call.order_id) (has_status s) db.orders
                  (ground arith)))
      | inr some_pending ↦ rw some_pending (find-settle_order id call.order_id s db)
    ]

pub written_pending :
    (k : ℕ) (o : Option Order) → written (pending_order k) (has_status OrderStatus.pending) o ≡ o
written_pending k none = refl
written_pending k (some o) = ground arith

find-settle_outcome-orders :
    (id : ℕ) (outcome : Outcome) (call : Call) (closing : Closing) (db : Db)
    → find (λ o. o.id == id) (settle_outcome outcome call closing db).1.orders
      ≡ written
          (pending_order call.order_id)
          (has_status (verdict outcome call.attempt))
          (find (λ o. o.id == id) db.orders)
unfolding settle_outcome
find-settle_outcome-orders id Outcome.confirmed call closing db =
    find-decide_order-orders id OrderStatus.confirmed call closing db
find-settle_outcome-orders id Outcome.cancelled call closing db =
    find-decide_order-orders id OrderStatus.cancelled call closing db
find-settle_outcome-orders id _ call closing db =
    elim (Bool-cases (leb max_attempts call.attempt)) [
      | inl final ↦ rw final (find-settle_order id call.order_id OrderStatus.unreachable db)
      | inr early ↦
          rw early (sym (written_pending call.order_id (find (λ o. o.id == id) db.orders)))
    ]

settle_outcome_applied :
    (outcome : Outcome) (call : Call) (closing : Closing) (db : Db)
    → (settle_outcome outcome call closing db).0.applied ≡ true
unfolding settle_outcome
settle_outcome_applied Outcome.confirmed call closing db = ground arith
settle_outcome_applied _ call closing db = ground arith

find-decide_order-calls :
    (id : ℕ) (s : OrderStatus) (call : Call) (closing : Closing) (db : Db) {c : Call}
    → find_call id db ≡ some c
    → (c.id == call.id) ≡ false
    → find_call id (decide_order s call closing db).1 ≡ some c
unfolding decide_order settle_order
find-decide_order-calls id s call closing db f other =
    elim (Bool-cases (count (pending_order call.order_id) db.orders == 0)) [
      | inl none_pending ↦ rw none_pending (find-update_other _ _ _ db.calls (λ x. refl) f other)
      | inr some_pending ↦ rw some_pending f
    ]

find-settle_outcome-calls :
    (id : ℕ) (outcome : Outcome) (call : Call) (closing : Closing) (db : Db) {c : Call}
    → find_call id db ≡ some c
    → (c.id == call.id) ≡ false
    → find_call id (settle_outcome outcome call closing db).1 ≡ some c
unfolding settle_outcome settle_order
find-settle_outcome-calls id Outcome.confirmed call closing db f other =
    find-decide_order-calls id OrderStatus.confirmed call closing db f other
find-settle_outcome-calls id Outcome.cancelled call closing db f other =
    find-decide_order-calls id OrderStatus.cancelled call closing db f other
find-settle_outcome-calls id _ call closing db f other =
    elim (Bool-cases (leb max_attempts call.attempt)) [ inl e ↦ rw e f | inr e ↦ rw e f ]

-- A row that is closed and keyed by its id is not counted among the pending ones.
count-pending_call :
    (id : ℕ) (db : Db) {c : Call}
    → count (λ x. x.id == id) db.calls ≤ 1
    → find_call id db ≡ some c
    → call_pending c.status ≡ false
    → count (pending_call id) db.calls ≡ 0
count-pending_call id db {c} k f n =
    find-count (λ x. x.id == id) (λ x. call_pending x.status) db.calls f k ∙ rw n

closed_call_is_other :
    (id k : ℕ) (db : Db) {c : Call}
    → HasKeys db
    → find_call id db ≡ some c
    → call_pending c.status ≡ false
    → (count (pending_call k) db.calls == 0) ≡ false
    → (c.id == k) ≡ false
closed_call_is_other id k db {c} h f n open_call = elim (Bool-cases (c.id == k)) [
  | inl e ↦
      let here : c.id ≡ id = (==_iff c.id id).0 (find-holds (λ x. x.id == id) db.calls f) in
      let same : id ≡ k = ground arith in
      let closed : count (pending_call k) db.calls ≡ 0 =
        subst (λ j. count (pending_call j) db.calls ≡ 0) same
          (count-pending_call id db (h.calls_key id) f n) in
      ground arith
  | inr e ↦ e
]

module _ (min : Number) (now : ℕ) (result : VoiceCallResult) (call : Call) (db : Db) where
  -- Where ids are keys of calls and orders, a call that is closed stays as it is, whatever is
  -- reported of it or of another call.
  pub apply_result-keeps_closed :
      (id : ℕ) {c : Call}
      → HasKeys db
      → find_call id db ≡ some c
      → call_pending c.status ≡ false
      → find_call id (apply_result min now result call db).1 ≡ some c
  unfolding apply_result
  apply_result-keeps_closed id {c} h f n =
      elim (Bool-cases (count (pending_call call.id) db.calls == 0)) [
        | inl closed ↦ rw closed f
        | inr open_call ↦ rw open_call (
            find-settle_outcome-calls id (decide_outcome (report_of result) min) call _ _
              (find-update_other _ (pending_call call.id) _ db.calls (λ x. refl) f
                (rw n (ground arith)))
              (closed_call_is_other id call.id db h f n open_call))
      ]

  -- Exactly the pending order of an applied call takes the verdict; every other order stays.
  pub find-apply_result-orders :
      (id : ℕ)
      → let applied = (apply_result min now result call db).0.applied in
        find (λ o. o.id == id) (apply_result min now result call db).1.orders ≡ (
          if applied
          then written
              (pending_order call.order_id)
              (has_status (verdict (decide_outcome (report_of result) min) call.attempt))
              (find (λ o. o.id == id) db.orders)
          else find (λ o. o.id == id) db.orders)
  unfolding apply_result
  find-apply_result-orders id = elim (Bool-cases (count (pending_call call.id) db.calls == 0)) [
    | inl closed ↦ rw closed
    | inr open_call ↦
        rw (open_call, settle_outcome_applied (decide_outcome (report_of result) min) call _ _)
          (find-settle_outcome-orders id _ call _ _)
  ]

settle_outcome-confirmed :
    (outcome : Outcome) (call : Call) (result : VoiceCallResult) (db : Db)
    → (settle_outcome outcome call (closing_of outcome result call.attempt) db).0.closing.status
      ≡ CallStatus.confirmed
    → (outcome ≡ Outcome.confirmed) × ((count (pending_order call.order_id) db.orders == 0) ≡ false)
unfolding settle_outcome closing_of
settle_outcome-confirmed Outcome.confirmed call result db h = ground arith
settle_outcome-confirmed _ call result db h = absurd (ground arith)

-- Where ids are keys of calls and orders: when the reply says that a report was applied and the call
-- ended as confirmed, the order of the call was pending and is confirmed now.
pub apply_result_confirms_order :
    (min : Number) (now : ℕ) (result : VoiceCallResult) (call : Call) (db : Db) {o : Order}
    → HasKeys db
    → find (λ x. x.id == call.order_id) db.orders ≡ some o
    → (apply_result min now result call db).0.applied ≡ true
    → (apply_result min now result call db).0.closing.status ≡ CallStatus.confirmed
    → (order_pending o.status ≡ true)
      × (find (λ x. x.id == call.order_id) (apply_result min now result call db).1.orders
          ≡ some (has_status OrderStatus.confirmed o))
unfolding apply_result
apply_result_confirms_order min now result call db {o} h f a c =
    elim (Bool-cases (count (pending_call call.id) db.calls == 0)) [
      | inl closed ↦ absurd (ground arith)
      | inr open_call ↦
          let outcome = decide_outcome (report_of result) min in
          let (says_yes, some_pending) =
            settle_outcome-confirmed outcome call result _ (rw (open_call, apply_result) at c) in
          let counted =
            find-count (λ x. x.id == call.order_id) (λ x. order_pending x.status) db.orders f
              (h.orders_key call.order_id) in
          let pending : order_pending o.status ≡ true = ground arith in
          let here : (o.id == call.order_id) ≡ true = find-holds _ db.orders f in
          (
            pending,
            rw open_call (
                find-settle_outcome-orders call.order_id outcome call _ _
                ∙ rw (f, says_yes, here, pending) refl),
          )
    ]
