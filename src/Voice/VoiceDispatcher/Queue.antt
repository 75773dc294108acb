-- ===== src/Voice/VoiceDispatcher/Queue.antt =====
-- What a pass of the agent's queue does to the calls.
use ordely.Common.{
  ℕ, ◌≤◌, ◌≡◌, ◌≢◌, refl, sym, ap, Option, none, some, List, [], ◌∷◌, arith, ltb, ◌==◌, Bool-cases,
  Option-cases, inl, inr, update, count, count-update-le, count-update-add, count-le,
}
use ordely.Common.Text.{Text}
use ordely.Store.{Call, Db, OnePending, pending_call}
use ordely.Calls.Pending.{update-OnePending}
use ordely.Voice.VoiceDispatcher.{
  Sent, Pass, Task, in_flight, timed_out, close_unanswered, expire_stale, next_call, claimable,
  claim, unclaim, claim_call, put_back, after_send, sent_for, dispatch, run_pass,
}

-- The ids are a key of the calls.
abbrev pub CallsKeyed : Db → Type 0
CallsKeyed db = (id : ℕ) → count (λ c. c.id == id) db.calls ≤ 1

expire_stale-OnePending :
    (timeout now : ℕ) (db : Db) → OnePending db → OnePending (expire_stale timeout now db)
unfolding expire_stale
expire_stale-OnePending timeout now db one =
    update-OnePending (timed_out timeout now) close_unanswered db (expire_stale timeout now db) one
      (λ c. refl) (λ c _. cc) refl

claim_call-OnePending : (now id : ℕ) (db : Db) → OnePending db → OnePending (claim_call now id db)
unfolding claim_call
claim_call-OnePending now id db one =
    update-OnePending (claimable id) (claim now) db (claim_call now id db) one (λ c. refl)
      (λ c _ p. p) refl

after_send-OnePending :
    (id : ℕ) (sent : Sent) (db : Db) → OnePending db → OnePending (after_send id sent db).1
unfolding put_back
after_send-OnePending id Sent.started db one = one
after_send-OnePending id Sent.busy db one =
    update-OnePending (pending_call id) unclaim db (put_back id db) one (λ c. refl) (λ c _ p. p)
      refl
after_send-OnePending id Sent.failed db one =
    update-OnePending (pending_call id) unclaim db (put_back id db) one (λ c. refl) (λ c _ p. p)
      refl

dispatch-OnePending :
    (send : Task → Sent) (dest : Option Text) (now : ℕ) (o : Option Call) (db : Db)
    → OnePending db
    → OnePending (dispatch send dest now o db).1
dispatch-OnePending send dest now none db one = one
dispatch-OnePending send dest now (some c) db one =
    elim (Bool-cases (count (claimable c.id) db.calls == 0)) [
      | inl taken ↦ rw taken one
      | inr free ↦ rw free (
          after_send-OnePending c.id (sent_for send dest c db) _
            (claim_call-OnePending now c.id db one))
    ]

-- A call that was just claimed and is put back is as it was, if no call was in flight.
unclaim_same : (c : Call) → c.dispatched_at ≡ none → unclaim c ≡ c
unclaim_same c h = ap (λ d. record c { dispatched_at = d }) (sym h)

unclaim-claim : (now : ℕ) (c : Call) → c.dispatched_at ≡ none → unclaim (claim now c) ≡ c
unclaim-claim now c h = unclaim_same c h

put_back-claim :
    (now id : ℕ) (calls : List Call)
    → count in_flight calls ≡ 0
    → update (pending_call id) unclaim (update (claimable id) (claim now) calls) ≡ calls
unfolding count update
put_back-claim now id [] h = refl
put_back-claim now id (c ∷ calls) h = elim (Option-cases c.dispatched_at) [
  | inl free ↦ ground (arith, put_back-claim now id calls, unclaim_same c, unclaim-claim now c)
  | inr (at, set) ↦ ground (arith, put_back-claim now id calls)
]

after_send-orders : (id : ℕ) (sent : Sent) (db : Db) → (after_send id sent db).1.orders ≡ db.orders
unfolding put_back
after_send-orders id Sent.started db = refl
after_send-orders id Sent.busy db = refl
after_send-orders id Sent.failed db = refl

module _ (send : Task → Sent) (test_destination : Option Text) (timeout now : ℕ) where
  -- A pass keeps at most one pending call for each order.
  pub run_pass-OnePending :
      (db : Db) → OnePending db → OnePending (run_pass send test_destination timeout now db).1
  unfolding run_pass
  run_pass-OnePending db one =
      let fresh = expire_stale timeout now db in
      let kept = expire_stale-OnePending timeout now db one in
      elim (Bool-cases (ltb 0 (count in_flight fresh.calls))) [
        | inl busy ↦ rw busy kept
        | inr free ↦
            rw free (dispatch-OnePending send test_destination now (next_call now fresh) fresh kept)
      ]

  after_send-not_taken :
      (id : ℕ) (sent : Sent) (db : Db)
      → count in_flight db.calls ≡ 0
      → (after_send id sent (claim_call now id db)).0 ≢ Pass.dispatched
      → (after_send id sent (claim_call now id db)).1 ≡ db
  unfolding put_back claim_call
  after_send-not_taken id Sent.started db none_sent n = absurd (n refl)
  after_send-not_taken id Sent.busy db none_sent n =
      ap (λ l. record db { calls = l }) (put_back-claim now id db.calls none_sent)
  after_send-not_taken id Sent.failed db none_sent n =
      ap (λ l. record db { calls = l }) (put_back-claim now id db.calls none_sent)

  dispatch-not_taken :
      (o : Option Call) (db : Db)
      → count in_flight db.calls ≡ 0
      → (dispatch send test_destination now o db).0 ≢ Pass.dispatched
      → (dispatch send test_destination now o db).1 ≡ db
  dispatch-not_taken none db none_sent n = refl
  dispatch-not_taken (some c) db none_sent n =
      elim (Bool-cases (count (claimable c.id) db.calls == 0)) [
        | inl taken ↦ rw taken
        | inr free ↦ rw free (
            after_send-not_taken c.id (sent_for send test_destination c db) db none_sent
              (rw free at n))
      ]

  -- A pass that does not hand over a call only closes the calls that timed out: a call that the agent
  -- did not take is in the queue as it was.
  pub run_pass_not_taken :
      (db : Db)
      → (run_pass send test_destination timeout now db).0 ≢ Pass.dispatched
      → (run_pass send test_destination timeout now db).1 ≡ expire_stale timeout now db
  unfolding run_pass
  run_pass_not_taken db n =
      let fresh = expire_stale timeout now db in
      elim (Bool-cases (ltb 0 (count in_flight fresh.calls))) [
        | inl busy ↦ rw busy
        | inr free ↦ rw free (
            dispatch-not_taken (next_call now fresh) fresh (ground arith)
              (rw (free, run_pass) at n))
      ]

  expire_stale-CallsKeyed : (db : Db) → CallsKeyed db → CallsKeyed (expire_stale timeout now db)
  unfolding expire_stale
  expire_stale-CallsKeyed db keyed id = omega (
    arith,
    keyed id,
    count-update-le (λ c. c.id == id) (timed_out timeout now) close_unanswered db.calls
        (λ c _ h. h),
  )

  claim_call-in_flight :
      (id : ℕ) (db : Db)
      → CallsKeyed db
      → count in_flight db.calls ≡ 0
      → count in_flight (claim_call now id db).calls ≤ 1
  unfolding claim_call
  claim_call-in_flight id db keyed none_sent = omega (
    arith,
    keyed id,
    count-update-add in_flight (claimable id) (claim now) db.calls,
    count-le (claimable id) (λ c. c.id == id) db.calls (λ c h. ground arith),
  )

  after_send-in_flight :
      (id : ℕ) (sent : Sent) (db : Db)
      → count in_flight db.calls ≤ 1
      → count in_flight (after_send id sent db).1.calls ≤ 1
  unfolding put_back
  after_send-in_flight id Sent.started db few = few
  after_send-in_flight id Sent.busy db few =
      omega (
        arith,
        count-update-le in_flight (pending_call id) unclaim db.calls (λ c _ h. ground arith),
      )
  after_send-in_flight id Sent.failed db few =
      omega (
        arith,
        count-update-le in_flight (pending_call id) unclaim db.calls (λ c _ h. ground arith),
      )

  dispatch-in_flight :
      (o : Option Call) (db : Db)
      → CallsKeyed db
      → count in_flight db.calls ≡ 0
      → count in_flight (dispatch send test_destination now o db).1.calls ≤ 1
  dispatch-in_flight none db keyed none_sent = omega arith
  dispatch-in_flight (some c) db keyed none_sent =
      elim (Bool-cases (count (claimable c.id) db.calls == 0)) [
        | inl taken ↦ rw taken (omega arith)
        | inr free ↦ rw free (
            after_send-in_flight c.id (sent_for send test_destination c db) (claim_call now c.id db)
              (claim_call-in_flight c.id db keyed none_sent))
      ]

  -- A pass leaves at most one call in flight, where ids are a key and at most one was.
  pub run_pass-in_flight :
      (db : Db)
      → CallsKeyed db
      → count in_flight db.calls ≤ 1
      → count in_flight (run_pass send test_destination timeout now db).1.calls ≤ 1
  unfolding run_pass expire_stale
  run_pass-in_flight db keyed few =
      let fresh = expire_stale timeout now db in
      let fewer =
        count-update-le in_flight (timed_out timeout now) close_unanswered db.calls
          (λ c _ h. ground arith) in
      elim (Bool-cases (ltb 0 (count in_flight fresh.calls))) [
        | inl busy ↦ rw busy (omega arith)
        | inr free ↦ rw free (
            dispatch-in_flight (next_call now fresh) fresh (expire_stale-CallsKeyed db keyed)
              (ground arith))
      ]

  dispatch-orders :
      (o : Option Call) (db : Db) → (dispatch send test_destination now o db).1.orders ≡ db.orders
  unfolding claim_call
  dispatch-orders none db = refl
  dispatch-orders (some c) db = elim (Bool-cases (count (claimable c.id) db.calls == 0)) [
    | inl taken ↦ rw taken
    | inr free ↦ rw free (after_send-orders c.id (sent_for send test_destination c db) _)
  ]

  -- A pass writes calls only.
  pub run_pass-orders :
      (db : Db) → (run_pass send test_destination timeout now db).1.orders ≡ db.orders
  unfolding run_pass expire_stale
  run_pass-orders db =
      let fresh = expire_stale timeout now db in
      elim (Bool-cases (ltb 0 (count in_flight fresh.calls))) [
        | inl busy ↦ rw busy
        | inr free ↦ rw free (dispatch-orders (next_call now fresh) fresh)
      ]
