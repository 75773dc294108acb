-- ===== src/Calls/Orchestrator/Pass.antt =====
-- What one pass of the orchestrator does to the calls.
use ordely.Common.{
  ℕ, ◌≤◌, ◌≡◌, refl, String, Bool, false, Option, none, some, List, [], ◌∷◌, map, arith, find,
  Option-cases, Bool-cases, inl, inr, length, length-take-le, any, is_set, truthy, ◌||◌,
}
use ordely.Store.{
  Order, Call, Db, call_pending, pending_call, calls_of, create_call, settle_order, OnePending,
  attempt_of,
}
use ordely.Calls.Service.Rows.{none_pending}
use ordely.Calls.Pending.{create_call-row, append-OnePending, update-OnePending}
use ordely.Calls.Policy.{LocalClock, next_attempt_number}
use ordely.Calls.Dispatcher.{VoiceCallTask, StartTaskResult, Dispatcher}
use ordely.Calls.Dispatcher.Effects.{dispatch_call-OnePending}
use ordely.Calls.Orchestrator.{
  expire, expire_call, expire_calls, expire_stale_calls, call_order, resume_or_call, poll_order,
  poll_orders, poll_pass, poll_page, dispatch_and_stop, order_open,
}

expire_call-OnePending :
    (now : ℕ) (call : Call) (db : Db) → OnePending db → OnePending (expire_call now call db)
unfolding expire_call settle_order
expire_call-OnePending now call db one =
    update-OnePending (pending_call call.id) (expire now) db (expire_call now call db) one
      (λ c. refl) (λ c _. cc) (ground arith)

expire_calls-OnePending :
    (now : ℕ) (calls : List Call) (db : Db) → OnePending db → OnePending (expire_calls now calls db)
unfolding expire_calls
expire_calls-OnePending now [] db one = one
expire_calls-OnePending now (c ∷ calls) db one =
    expire_calls-OnePending now calls (expire_call now c db) (expire_call-OnePending now c db one)

any_of_find : (p : Call → Bool) (calls : List Call) → find p calls ≡ none → any p calls ≡ false
unfolding find
any_of_find p [] h = refl
any_of_find p (c ∷ calls) h = ground (arith, any_of_find p calls)

module _ (clock : LocalClock) (now : ℕ) (uuid : String)
    (start_task : VoiceCallTask → StartTaskResult) (has_capacity : ℕ → Bool) where
  dispatch_and_stop-OnePending :
      (boutique_id call_id : ℕ) (d : Dispatcher)
      → OnePending d.db
      → OnePending
          (dispatch_and_stop clock now uuid start_task has_capacity boutique_id call_id d).1.db
  dispatch_and_stop-OnePending b c d one =
      dispatch_call-OnePending clock now uuid start_task b c d one

  call_order-OnePending :
      (o : Order) (attempt : Option ℕ) (d : Dispatcher)
      → any (λ c. call_pending c.status) (calls_of o.id d.db) ≡ false
      → OnePending d.db
      → OnePending (call_order clock now uuid start_task has_capacity o attempt d).1.db
  call_order-OnePending o none d idle one = one
  call_order-OnePending o (some attempt) d idle one = elim (Bool-cases (has_capacity o.id)) [
    | inl room ↦ elim (Option-cases (create_call now o.id attempt d.db)) [
      | inl taken ↦ rw (room, taken) one
      | inr ((call, after), made) ↦
          let (owner, calls) = create_call-row now o.id attempt d.db made in
          rw (room, made)
            (dispatch_and_stop-OnePending o.boutique_id call.id (record d { db = after })
              (append-OnePending o.id call d.db after one (none_pending o.id d.db idle) owner
                calls))
    ]
    | inr full ↦ rw full one
  ]

  resume-OnePending :
      (o : Order) (c : Call) (d : Dispatcher)
      → OnePending d.db
      → OnePending (resume_or_call clock now uuid start_task has_capacity o (some c) d).1.db
  resume-OnePending o c d one =
      elim (Bool-cases (is_set (truthy c.task_id) || is_set c.dispatched_at)) [
        | inl sent ↦ rw sent one
        | inr unsent ↦ elim (Bool-cases (has_capacity o.id)) [
          | inl room ↦ rw (unsent, room) (dispatch_and_stop-OnePending o.boutique_id c.id d one)
          | inr full ↦ rw (unsent, full) one
        ]
      ]

  poll_order-OnePending :
      (o : Order) (d : Dispatcher)
      → OnePending d.db
      → OnePending (poll_order clock now uuid start_task has_capacity o d).1.db
  unfolding poll_order
  poll_order-OnePending o d one =
      elim (Bool-cases (order_open clock now uuid start_task has_capacity o d.db)) [
        | inl opened ↦
            elim (Option-cases (find (λ c. call_pending c.status) (calls_of o.id d.db))) [
              | inl idle ↦
                  rw (opened, idle)
                    (call_order-OnePending o
                      (next_attempt_number (map attempt_of (calls_of o.id d.db)) now) d
                      (any_of_find _ (calls_of o.id d.db) idle) one)
              | inr (c, waits) ↦ rw (opened, waits) (resume-OnePending o c d one)
            ]
        | inr closed ↦ rw closed one
      ]

  poll_orders-OnePending :
      (orders : List Order) (d : Dispatcher)
      → OnePending d.db
      → OnePending (poll_orders clock now uuid start_task has_capacity orders d).db
  unfolding poll_orders
  poll_orders-OnePending [] d one = one
  poll_orders-OnePending (o ∷ orders) d one =
      elim (Bool-cases (poll_order clock now uuid start_task has_capacity o d).0) [
        | inl stop ↦ rw (stop, poll_orders) (poll_order-OnePending o d one)
        | inr go_on ↦
            rw (go_on, poll_orders)
              (poll_orders-OnePending orders _ (poll_order-OnePending o d one))
      ]

  -- A pass keeps at most one pending call for each order, whatever the agent answers.
  pub poll_pass-OnePending :
      (cursor : Option ℕ) (d : Dispatcher)
      → OnePending d.db
      → OnePending (poll_pass clock now uuid start_task has_capacity cursor d).1.db
  unfolding poll_pass expire_stale_calls
  poll_pass-OnePending cursor d one =
      poll_orders-OnePending _ _ (expire_calls-OnePending now _ d.db one)

  -- A pass looks at a hundred orders at most.
  poll_page-bound : (cursor : Option ℕ) (db : Db) → length (poll_page cursor db) ≤ 100
  unfolding poll_page
  poll_page-bound cursor db = length-take-le 100 _
