-- ===== src/Calls/Orchestrator/Evolution.antt =====
-- What a pass of the orchestrator does to the orders.
use ordely.Common.{
  ℕ, ◌≡◌, refl, sym, ◌∙◌, subst, String, Bool, ◌&&◌, Option, none, some, List, [], ◌∷◌, map, arith,
  leb, ltb, find, count, Option-cases, Bool-cases, inl, inr, is_set, truthy, ◌||◌,
}
use ordely.Store.{
  OrderStatus, Order, Call, Db, call_pending, pending_call, pending_order, calls_of, create_call,
  settle_order, attempt_of,
}
use ordely.Calls.Pending.{create_call-orders}
use ordely.Lifecycle.{Moves, Evolves, Evolves-refl, Evolves-trans, Evolves-update, Moves-settled}
use ordely.Calls.Policy.{LocalClock, next_attempt_number}
use ordely.Calls.Dispatcher.{VoiceCallTask, StartTaskResult, Dispatcher}
use ordely.Calls.Dispatcher.Effects.{dispatch_call-orders}
use ordely.Calls.Orchestrator.{
  expire_call, expire_calls, expire_stale_calls, call_order, resume_or_call, poll_order,
  poll_orders, poll_pass, dispatch_and_stop, order_open,
}

-- Settling a pending order is a move of its life.
pub settle_order-Evolves :
    (id : ℕ) (s : OrderStatus) (db : Db)
    → Moves OrderStatus.pending s
    → Evolves db.orders (settle_order id s db).orders
unfolding settle_order
settle_order-Evolves id s db m =
    Evolves-update (pending_order id) s db.orders
      (λ o selected. subst (λ t. Moves t s) (sym (Moves-settled o (ground arith))) m)

expire_call-Evolves :
    (now : ℕ) (call : Call) (db : Db) → Evolves db.orders (expire_call now call db).orders
unfolding expire_call
expire_call-Evolves now call db =
    elim (Bool-cases (ltb 0 (count (pending_call call.id) db.calls) && leb 3 call.attempt)) [
      | inl last ↦
          rw last (settle_order-Evolves call.order_id OrderStatus.unreachable _ Moves.give_up)
      | inr more ↦ rw more (Evolves-refl db.orders)
    ]

expire_calls-Evolves :
    (now : ℕ) (calls : List Call) (db : Db) → Evolves db.orders (expire_calls now calls db).orders
unfolding expire_calls
expire_calls-Evolves now [] db = Evolves-refl db.orders
expire_calls-Evolves now (c ∷ calls) db =
    Evolves-trans _ _ _ (expire_call-Evolves now c db)
      (expire_calls-Evolves now calls (expire_call now c db))

module _ (clock : LocalClock) (now : ℕ) (uuid : String)
    (start_task : VoiceCallTask → StartTaskResult) (has_capacity : ℕ → Bool) where
  dispatch_and_stop-orders :
      (boutique_id call_id : ℕ) (d : Dispatcher)
      → (dispatch_and_stop clock now uuid start_task has_capacity boutique_id call_id d).1.db.orders
        ≡ d.db.orders
  dispatch_and_stop-orders b c d = dispatch_call-orders clock now uuid start_task b c d

  call_order-orders :
      (o : Order) (attempt : Option ℕ) (d : Dispatcher)
      → (call_order clock now uuid start_task has_capacity o attempt d).1.db.orders ≡ d.db.orders
  call_order-orders o none d = refl
  call_order-orders o (some attempt) d = elim (Bool-cases (has_capacity o.id)) [
    | inl room ↦ elim (Option-cases (create_call now o.id attempt d.db)) [
      | inl taken ↦ rw (room, taken)
      | inr ((call, after), made) ↦
          rw (room, made)
            (dispatch_and_stop-orders o.boutique_id call.id (record d { db = after })
              ∙ create_call-orders now o.id attempt d.db made)
    ]
    | inr full ↦ rw full
  ]

  resume-orders :
      (o : Order) (c : Call) (d : Dispatcher)
      → (resume_or_call clock now uuid start_task has_capacity o (some c) d).1.db.orders
        ≡ d.db.orders
  resume-orders o c d = elim (Bool-cases (is_set (truthy c.task_id) || is_set c.dispatched_at)) [
    | inl sent ↦ rw sent
    | inr unsent ↦ elim (Bool-cases (has_capacity o.id)) [
      | inl room ↦ rw (unsent, room) (dispatch_and_stop-orders o.boutique_id c.id d)
      | inr full ↦ rw (unsent, full)
    ]
  ]

  poll_order-orders :
      (o : Order) (d : Dispatcher)
      → (poll_order clock now uuid start_task has_capacity o d).1.db.orders ≡ d.db.orders
  unfolding poll_order
  poll_order-orders o d =
      elim (Bool-cases (order_open clock now uuid start_task has_capacity o d.db)) [
        | inl opened ↦
            elim (Option-cases (find (λ c. call_pending c.status) (calls_of o.id d.db))) [
              | inl idle ↦
                  rw (opened, idle)
                    (call_order-orders o
                      (next_attempt_number (map attempt_of (calls_of o.id d.db)) now) d)
              | inr (c, waits) ↦ rw (opened, waits) (resume-orders o c d)
            ]
        | inr closed ↦ rw closed
      ]

  poll_orders-orders :
      (orders : List Order) (d : Dispatcher)
      → (poll_orders clock now uuid start_task has_capacity orders d).db.orders ≡ d.db.orders
  unfolding poll_orders
  poll_orders-orders [] d = refl
  poll_orders-orders (o ∷ orders) d =
      elim (Bool-cases (poll_order clock now uuid start_task has_capacity o d).0) [
        | inl stop ↦ rw (stop, poll_orders) (poll_order-orders o d)
        | inr go_on ↦ rw (go_on, poll_orders) (poll_orders-orders orders _ ∙ poll_order-orders o d)
      ]

  -- A pass changes orders along their life only.
  pub poll_pass-Evolves :
      (cursor : Option ℕ) (d : Dispatcher)
      → Evolves d.db.orders (poll_pass clock now uuid start_task has_capacity cursor d).1.db.orders
  unfolding poll_pass expire_stale_calls
  poll_pass-Evolves cursor d =
      subst (Evolves d.db.orders) (sym (poll_orders-orders _ _)) (expire_calls-Evolves now _ d.db)
