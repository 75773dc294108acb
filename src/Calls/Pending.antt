-- ===== src/Calls/Pending.antt =====
-- How the writes of the services bear on the pending calls of an order.
use ordely.Common.{
  ℕ, some, ◌≡◌, Bool, true, ◌&&◌, [], ◌∷◌, ◌++◌, arith, ◌==◌, count, count-append, count-update-le,
  Bool-cases, inl, inr, ==_iff, subst, update,
}
use ordely.Store.{Call, Db, create_call, call_pending, OnePending}

-- A call added to an order that had no pending call.
pub append-OnePending :
    (order_id : ℕ) (call : Call) (db after : Db)
    → OnePending db
    → count (λ c. c.order_id == order_id && call_pending c.status) db.calls ≡ 0
    → call.order_id ≡ order_id
    → after.calls ≡ db.calls ++ call ∷ []
    → OnePending after
unfolding count
append-OnePending order_id call db after one idle same calls k =
    rw (calls, count-append)
      (elim (Bool-cases (order_id == k)) [
        | inl here ↦
            let this : order_id ≡ k = (==_iff order_id k).0 here in
            let none_pending : count (λ c. c.order_id == k && call_pending c.status) db.calls ≡ 0 =
              subst (λ j. count (λ c. c.order_id == j && call_pending c.status) db.calls ≡ 0) this
                idle in
            ground arith
        | inr other ↦ ground (arith, one k)
      ])

-- An update of calls that leaves the order of a row alone and makes no row pending.
pub update-OnePending :
    (p : Call → Bool) (f : Call → Call) (db after : Db)
    → OnePending db
    → ((c : Call) → (f c).order_id ≡ c.order_id)
    → ((c : Call) → p c ≡ true → call_pending (f c).status ≡ true → call_pending c.status ≡ true)
    → after.calls ≡ update p f db.calls
    → OnePending after
update-OnePending p f db after one same closes calls k = rw calls (
    omega (
      arith,
      one k,
      count-update-le (λ c. c.order_id == k && call_pending c.status) p f db.calls
          (λ c selected counted. ground (arith, same c, closes c)),
    ))

-- What `call.create` leaves when it succeeds.
pub create_call-row :
    (now order_id attempt : ℕ) (db : Db) {call : Call} {after : Db}
    → create_call now order_id attempt db ≡ some (call, after)
    → (call.order_id ≡ order_id) × (after.calls ≡ db.calls ++ call ∷ [])
unfolding create_call
create_call-row now order_id attempt db h = ground arith

pub create_call-orders :
    (now order_id attempt : ℕ) (db : Db) {call : Call} {after : Db}
    → create_call now order_id attempt db ≡ some (call, after)
    → after.orders ≡ db.orders
unfolding create_call
create_call-orders now order_id attempt db h = ground arith
