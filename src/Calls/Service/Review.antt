-- ===== src/Calls/Service/Review.antt =====
-- What `retryAfterReview` of calls.service.ts guarantees.
use ordely.Common.{
  ℕ, ◌+◌, ◌≡◌, sym, subst, true, false, some, [], ◌∷◌, ◌++◌, arith, Result-cases, ok, err, result,
  final, HttpError, update, Option-cases, inl, inr, find, count, ◌==◌, ◌&&◌, ◌∙◌,
}
use ordely.Store.{
  OrderStatus, Order, Call, Db, create_call, calls_of, emit, has_status, OnePending, new_call,
  CallStatus, call_pending,
}
use ordely.Calls.Service.Rows.{find_order_row, none_pending, is_unreachable}
use ordely.Calls.Pending.{append-OnePending}
use ordely.Calls.Service.{
  find_order, any_pending, insert_call, last_attempt, reopens, reopen, retry_after_review,
  order_unreachable,
}
use ordely.Calls.Service.Highest.{IsHighest, reopened, update-reopened, last_attempt-IsHighest}

module _ (now boutique_id order_id : ℕ) (db : Db) where
  -- A refused retry changes nothing: also when the new row is refused after the order was reopened,
  -- since both writes stand in one transaction.
  pub retry_after_review_refused :
      {e : HttpError}
      → result (retry_after_review now boutique_id order_id) db ≡ err e
      → final (retry_after_review now boutique_id order_id) db ≡ db
  unfolding retry_after_review
  retry_after_review_refused h = ground arith

  -- What a successful retry has established, and what it wrote: the order is a row with that id and
  -- that shop, and `last` is the highest number among its calls.
  pub record IsRetried (call : Call) (after : Db) : Type 0 where
    pub order : Order
    pub last : ℕ
    pub found : find (λ o. o.id == order_id && o.boutique_id == boutique_id) db.orders ≡ some order
    pub own_id : order.id ≡ order_id
    pub own_shop : order.boutique_id ≡ boutique_id
    pub reviewed : order.status ≡ OrderStatus.unreachable
    pub no_other : count (λ c. c.order_id == order_id && call_pending c.status) db.calls ≡ 0
    pub highest : IsHighest last (calls_of order_id db)
    pub next : call.attempt ≡ last + 1
    pub row : call ≡ new_call db.next_call_id now order_id (last + 1)
    pub of_order : call.order_id ≡ order_id
    pub pending : call.status ≡ CallStatus.pending
    pub calls : after.calls ≡ db.calls ++ call ∷ []
    pub orders : after.orders ≡ reopened boutique_id order_id db.orders

  -- What a retry that succeeds has found and written.
  pub retry_after_review-IsRetried :
      {call : Call}
      → result (retry_after_review now boutique_id order_id) db ≡ ok call
      → IsRetried call (final (retry_after_review now boutique_id order_id) db)
  unfolding retry_after_review reopen insert_call create_call emit
  retry_after_review-IsRetried {call} h = elim (Option-cases (find_order boutique_id order_id db)) [
    | inl missing ↦ absurd (ground arith)
    | inr (order, found) ↦ elim (Option-cases (last_attempt (calls_of order_id db))) [
      | inl never ↦ absurd (ground arith)
      | inr (last, attempts) ↦
          let (own_id, own_shop) = find_order_row boutique_id order_id db found in
          let given_up : order_unreachable order.status ≡ true = ground arith in
          let idle : any_pending (calls_of order_id db) ≡ false = ground arith in
          let made : call ≡ new_call db.next_call_id now order_id (last + 1) = ground arith in
          let written : (final (retry_after_review now boutique_id order_id) db).orders
              ≡ update (reopens boutique_id order_id) (has_status OrderStatus.pending) db.orders =
            ground arith in
          record {
            order = order;
            last = last;
            found = unfold find_order in found;
            own_id = own_id;
            own_shop = own_shop;
            reviewed = is_unreachable order.status given_up;
            no_other = none_pending order_id db idle;
            highest = last_attempt-IsHighest (calls_of order_id db) last attempts;
            next = rw made;
            row = made;
            of_order = rw made;
            pending = rw made;
            calls = ground arith;
            orders = written ∙ update-reopened boutique_id order_id db.orders;
          }
    ]
  ]

  -- A retry keeps at most one pending call for each order.
  pub retry_after_review-OnePending :
      OnePending db → OnePending (final (retry_after_review now boutique_id order_id) db)
  retry_after_review-OnePending one =
      elim (Result-cases (result (retry_after_review now boutique_id order_id) db)) [
        | inl (e, refused) ↦ subst OnePending (sym (retry_after_review_refused refused)) one
        | inr (call, done) ↦
            let r = retry_after_review-IsRetried done in
            append-OnePending order_id call db
              (final (retry_after_review now boutique_id order_id) db) one r.no_other r.of_order
              r.calls
      ]
