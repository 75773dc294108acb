-- ===== src/Calls/Service/QueueAll.antt =====
-- What `queueAllPending` of calls.service.ts guarantees, in one transaction.
use ordely.Common.{
  ℕ, ◌+◌, ◌≡◌, refl, ap, ◌∙◌, sym, subst, ◌⊎◌, Bool, true, false, ◌&&◌, ◌||◌, none, some, List, [],
  ◌∷◌, ◌++◌, map, arith, ◌==◌, ==_iff, any, select, Option-cases, Bool-cases, inl, inr, All,
}
use ordely.Store.{
  Order, Call, Db, OnePending, calls_of, create_call, attempt_of, attempt_taken, new_call,
}
use ordely.Calls.Policy.{LocalClock, next_attempt_number}
use ordely.Calls.Service.Rows.{none_pending}
use ordely.Calls.Pending.{append-OnePending, create_call-orders}
use ordely.Calls.Service.{
  open_now, any_pending, is_idle, eligible, insert_or_skip, create_many, queue_all_pending,
}

-- A row to insert: its attempt is the one that the policy named, and either no call of its order is
-- pending, or the row is there already.
abbrev IsReady : ℕ → Db → Db → ℕ × ℕ → Type 0
IsReady now read db (id, attempt) =
    (next_attempt_number (map attempt_of (calls_of id read)) now ≡ some attempt)
    × ((any_pending (calls_of id db) ≡ false) ⊎ (attempt_taken id attempt db ≡ true))

any-append : (p : Call → Bool) (xs ys : List Call) → any p (xs ++ ys) ≡ (any p xs || any p ys)
any-append p [] ys = refl
any-append p (x ∷ xs) ys = ground (arith, any-append p xs ys)

any_pending-insert :
    (id : ℕ) (call : Call) (calls : List Call)
    → (call.order_id == id) ≡ false
    → any_pending (select (λ c. c.order_id == id) (calls ++ call ∷ []))
      ≡ any_pending (select (λ c. c.order_id == id) calls)
unfolding select
any_pending-insert id call [] h = ground arith
any_pending-insert id call (c ∷ calls) h = ground (arith, any_pending-insert id call calls h)

create_call-is_new :
    (now order_id attempt : ℕ) (db : Db) {call : Call} {after : Db}
    → create_call now order_id attempt db ≡ some (call, after)
    → (call ≡ new_call db.next_call_id now order_id attempt)
      × (after.calls ≡ db.calls ++ call ∷ [])
      × (attempt_taken order_id attempt db ≡ false)
unfolding create_call
create_call-is_new now order_id attempt db h = ground arith

any-last :
    (p : Call → Bool) (calls : List Call) (call : Call)
    → p call ≡ true
    → any p (calls ++ call ∷ []) ≡ true
any-last p calls call h = ground (arith, any-append p calls (call ∷ []))

any-more :
    (p : Call → Bool) (calls : List Call) (call : Call)
    → any p calls ≡ true
    → any p (calls ++ call ∷ []) ≡ true
any-more p calls call h = ground (arith, any-append p calls (call ∷ []))

-- One insertion: a row that stands already is skipped.
create_many_skips :
    (now id attempt n : ℕ) (rows : List (ℕ × ℕ)) (db : Db)
    → create_call now id attempt db ≡ none
    → create_many now ((id, attempt) ∷ rows) (n, db) ≡ create_many now rows (n, db)
unfolding create_many
create_many_skips now id attempt n rows db taken =
    ap (create_many now rows) {x = insert_or_skip now (id, attempt) (n, db)}
      (rw (taken, insert_or_skip))

create_many_inserts :
    (now id attempt n : ℕ) (rows : List (ℕ × ℕ)) (db after : Db) (call : Call)
    → create_call now id attempt db ≡ some (call, after)
    → create_many now ((id, attempt) ∷ rows) (n, db) ≡ create_many now rows (n + 1, after)
unfolding create_many
create_many_inserts now id attempt n rows db after call made =
    ap (create_many now rows) {x = insert_or_skip now (id, attempt) (n, db)}
      (rw (made, insert_or_skip))

module _ (now : ℕ) (read : Db) where
  IsReady-insert :
      (id attempt : ℕ) (row : ℕ × ℕ) (db after : Db) (call : Call)
      → call ≡ new_call db.next_call_id now id attempt
      → after.calls ≡ db.calls ++ call ∷ []
      → next_attempt_number (map attempt_of (calls_of id read)) now ≡ some attempt
      → IsReady now read db row
      → IsReady now read after row
  unfolding calls_of
  IsReady-insert id attempt (k, a) db after call is_new calls next (ready, waits) =
      elim (Bool-cases (id == k)) [
        | inl same ↦
            let e : id ≡ k = (==_iff id k).0 same in
            let f : attempt ≡ a = cc in
            let there : (call.order_id == k && call.attempt == a) ≡ true = ground arith in
            (
              ready,
              inr (
                  rw calls (any-last (λ c. c.order_id == k && c.attempt == a) db.calls call there)),
            )
        | inr other ↦
            let apart : (call.order_id == k) ≡ false = ground arith in
            elim waits [
              | inl idle ↦ (ready, inl (rw calls (any_pending-insert k call db.calls apart ∙ idle)))
              | inr taken ↦ (
                ready,
                inr (
                    rw calls
                      (any-more (λ c. c.order_id == k && c.attempt == a) db.calls call taken)),
              )
            ]
      ]

  All-IsReady-insert :
      (id attempt : ℕ) (rows : List (ℕ × ℕ)) (db after : Db) (call : Call)
      → call ≡ new_call db.next_call_id now id attempt
      → after.calls ≡ db.calls ++ call ∷ []
      → next_attempt_number (map attempt_of (calls_of id read)) now ≡ some attempt
      → All (IsReady now read db) rows
      → All (IsReady now read after) rows
  All-IsReady-insert id attempt [] db after call is_new calls next all_ready = tt
  All-IsReady-insert id attempt (row ∷ rows) db after call is_new calls next (ready, all_ready) = (
    IsReady-insert id attempt row db after call is_new calls next ready,
    All-IsReady-insert id attempt rows db after call is_new calls next all_ready,
  )

  create_many-OnePending :
      (rows : List (ℕ × ℕ)) (n : ℕ) (db : Db)
      → All (IsReady now read db) rows
      → OnePending db
      → OnePending (create_many now rows (n, db)).1
  create_many-OnePending [] n db ready one = unfold create_many in one
  create_many-OnePending ((id, attempt) ∷ rows) n db ((next, waits), ready) one =
      elim (Option-cases (create_call now id attempt db)) [
        | inl taken ↦
            subst (λ s. OnePending s.1) (sym (create_many_skips now id attempt n rows db taken))
              (create_many-OnePending rows n db ready one)
        | inr ((call, after), made) ↦
            let (is_new, calls, fresh) = create_call-is_new now id attempt db made in
            let idle : any_pending (calls_of id db) ≡ false = ground arith in
            subst (λ s. OnePending s.1)
              (sym (create_many_inserts now id attempt n rows db after call made))
              (create_many-OnePending rows (n + 1) after
                (All-IsReady-insert id attempt rows db after call is_new calls next ready)
                (append-OnePending id call db after one (none_pending id db idle) (rw is_new)
                  calls))
      ]

eligible-IsReady :
    (clock : LocalClock) (now boutique_id : ℕ) (db : Db) (orders : List Order)
    → All (IsReady now db db) (eligible clock now db (select (is_idle boutique_id db) orders))
unfolding eligible select
eligible-IsReady clock now boutique_id db [] = tt
eligible-IsReady clock now boutique_id db (o ∷ orders) =
    elim (Bool-cases (is_idle boutique_id db o)) [
      | inl idle ↦ elim (Bool-cases (open_now clock now o.boutique_id db)) [
        | inl opened ↦
            elim (Option-cases (next_attempt_number (map attempt_of (calls_of o.id db)) now)) [
              | inl never ↦
                  rw (idle, opened, never) (eligible-IsReady clock now boutique_id db orders)
              | inr (attempt, next) ↦
                  rw (idle, opened, next)
                    ((next, inl (ground arith)), eligible-IsReady clock now boutique_id db orders)
            ]
        | inr closed ↦ rw (idle, closed) (eligible-IsReady clock now boutique_id db orders)
      ]
      | inr busy ↦ rw busy (eligible-IsReady clock now boutique_id db orders)
    ]

-- Queueing all pending orders of a shop keeps at most one pending call for each order, also where
-- two rows of orders have one id.
pub queue_all_pending-OnePending :
    (clock : LocalClock) (now boutique_id : ℕ) (db : Db)
    → OnePending db
    → OnePending (queue_all_pending clock now boutique_id db).1
unfolding queue_all_pending
queue_all_pending-OnePending clock now boutique_id db one =
    create_many-OnePending now db
      (eligible clock now db (select (is_idle boutique_id db) db.orders)) 0 db
      (eligible-IsReady clock now boutique_id db db.orders) one

create_many-orders :
    (now : ℕ) (rows : List (ℕ × ℕ)) (n : ℕ) (db : Db)
    → (create_many now rows (n, db)).1.orders ≡ db.orders
create_many-orders now [] n db = unfold create_many in refl
create_many-orders now ((id, attempt) ∷ rows) n db =
    elim (Option-cases (create_call now id attempt db)) [
      | inl taken ↦
          rw (create_many_skips now id attempt n rows db taken) (create_many-orders now rows n db)
      | inr ((call, after), made) ↦
          rw (create_many_inserts now id attempt n rows db after call made)
            (create_many-orders now rows (n + 1) after ∙ create_call-orders now id attempt db made)
    ]

pub queue_all_pending-orders :
    (clock : LocalClock) (now boutique_id : ℕ) (db : Db)
    → (queue_all_pending clock now boutique_id db).1.orders ≡ db.orders
unfolding queue_all_pending
queue_all_pending-orders clock now boutique_id db = create_many-orders now _ 0 db
