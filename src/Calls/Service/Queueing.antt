-- ===== src/Calls/Service/Queueing.antt =====
-- What `queue` of calls.service.ts guarantees.
use ordely.Common.{
  ℕ, ◌≡◌, true, false, some, [], ◌∷◌, ◌++◌, map, arith, ok, err, result, final, HttpError,
  Option-cases, Result-cases, subst, sym, inl, inr, ap, ◌+◌, ◌≤◌, ◌∙◌, ◌==◌, ◌&&◌, find, count,
  count_of_any,
}
use ordely.Store.{
  Order, Call, Db, order_pending, create_call, calls_of, emit, attempt_of, OnePending, new_call,
  attempt_taken, OrderStatus, CallStatus, call_pending, Boutique,
}
use ordely.Calls.Policy.{LocalClock, next_attempt_number}
use ordely.Lifecycle.{Moves-settled}
use ordely.Calls.Policy.Attempts.{next_attempt_number_bounds}
use ordely.Calls.Service.Rows.{find_order_row, none_pending, length-calls_of, open_now-IsOpen}
use ordely.Calls.Policy.Window.{IsOpen}
use ordely.Calls.Pending.{append-OnePending}
use ordely.Calls.Service.{find_order, open_now, any_pending, insert_call, queue}

module _ (clock : LocalClock) (now boutique_id order_id : ℕ) (db : Db) where
  -- What a successful request to queue a call has established, and what it wrote: the order is a
  -- row with that id and that shop, none of its calls is pending or has the attempt's number, and the
  -- call is the next row of the table.
  pub record IsQueued (call : Call) (after : Db) : Type 0 where
    pub order : Order
    pub found : find (λ o. o.id == order_id && o.boutique_id == boutique_id) db.orders ≡ some order
    pub own_id : order.id ≡ order_id
    pub own_shop : order.boutique_id ≡ boutique_id
    pub waiting : order.status ≡ OrderStatus.pending
    pub shop : Boutique
    pub its_shop : find (λ b. b.id == boutique_id) db.boutiques ≡ some shop
    pub in_hours : IsOpen clock shop.call_start_time shop.call_end_time now
    pub no_other : count (λ c. c.order_id == order_id && call_pending c.status) db.calls ≡ 0
    pub due : next_attempt_number (map attempt_of (calls_of order_id db)) now ≡ some call.attempt
    pub number : call.attempt ≡ count (λ c. c.order_id == order_id) db.calls + 1
    pub at_most : call.attempt ≤ 3
    pub fresh : count (λ c. c.order_id == order_id && c.attempt == call.attempt) db.calls ≡ 0
    pub row : call ≡ new_call db.next_call_id now order_id call.attempt
    pub of_order : call.order_id ≡ order_id
    pub pending : call.status ≡ CallStatus.pending
    pub calls : after.calls ≡ db.calls ++ call ∷ []
    pub orders : after.orders ≡ db.orders

  -- What a request that queues a call has found and written.
  pub queue-IsQueued :
      {call : Call}
      → result (queue clock now boutique_id order_id) db ≡ ok call
      → IsQueued call (final (queue clock now boutique_id order_id) db)
  unfolding queue insert_call create_call emit
  queue-IsQueued {call} h = elim (Option-cases (find_order boutique_id order_id db)) [
    | inl missing ↦ absurd (ground arith)
    | inr (order, found) ↦
        elim (Option-cases (next_attempt_number (map attempt_of (calls_of order_id db)) now)) [
          | inl never ↦ absurd (ground arith)
          | inr (attempt, next) ↦
              let (own_id, own_shop) = find_order_row boutique_id order_id db found in
              let (after_all, no_fourth) = next_attempt_number_bounds _ now next in
              let is_pending : order_pending order.status ≡ true = ground arith in
              let idle : any_pending (calls_of order_id db) ≡ false = ground arith in
              let untaken : attempt_taken order_id attempt db ≡ false = ground arith in
              let made : call ≡ new_call db.next_call_id now order_id attempt = ground arith in
              let opened : open_now clock now boutique_id db ≡ true = ground arith in
              let (shop, its_shop, in_hours) = open_now-IsOpen clock now boutique_id db opened in
              record {
                order = order;
                found = unfold find_order in found;
                own_id = own_id;
                own_shop = own_shop;
                waiting = Moves-settled order is_pending;
                shop = shop;
                its_shop = its_shop;
                in_hours = in_hours;
                no_other = none_pending order_id db idle;
                due = rw (made, next);
                number =
                    rw made (after_all ∙ ap (λ n. n + 1) (length-calls_of attempt_of order_id db));
                at_most = rw made no_fourth;
                fresh = rw made (count_of_any _ db.calls untaken);
                row = rw made;
                of_order = rw made;
                pending = rw made;
                calls = ground arith;
                orders = ground arith;
              }
        ]
  ]

  -- A refused request to queue a call changes nothing.
  pub queue_refused :
      {e : HttpError}
      → result (queue clock now boutique_id order_id) db ≡ err e
      → final (queue clock now boutique_id order_id) db ≡ db
  unfolding queue insert_call create_call
  queue_refused h = ground arith

  -- Queueing a call keeps at most one pending call for each order.
  pub queue-OnePending :
      OnePending db → OnePending (final (queue clock now boutique_id order_id) db)
  queue-OnePending one = elim (Result-cases (result (queue clock now boutique_id order_id) db)) [
    | inl (e, refused) ↦ subst OnePending (sym (queue_refused refused)) one
    | inr (call, done) ↦
        let q = queue-IsQueued done in
        append-OnePending order_id call db (final (queue clock now boutique_id order_id) db) one
          q.no_other q.of_order q.calls
  ]
