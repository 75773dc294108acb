-- ===== src/System/Evolution.antt =====
-- The orders under the steps of the system: the refinement of Lifecycle.
use ordely.Common.{
  ℕ, ◌≡◌, ◌∙◌, ap, sym, subst, Bool, true, false, ◌&&◌, some, List, [], ◌∷◌, ◌++◌, arith, final,
  result, Result-cases, inl, inr, ◌==◌, ==_iff, Bool-cases, count, find, find-holds, delete,
}
use ordely.Store.{OrderStatus, Order, Db, emit, has_status}
use ordely.Lifecycle.{
  Moves, Evolves, Evolves-refl, Evolves-update, Life-trans, LivesOn, LivesOn-self, LivesOn-find,
}
use ordely.Voice.Rules.{Number}
use ordely.Voice.CallCallback.Evolution.{apply_result-Evolves}
use ordely.Voice.VoiceCallbacks.Evolution.{apply_report-Evolves}
use ordely.Voice.VoiceDispatcher.Queue.{run_pass-orders}
use ordely.Orders.{CreateOrderDto, create, remove, delete_order, own_order}
use ordely.Calls.Policy.{LocalClock}
use ordely.Calls.Service.{queue, retry_after_review, reopens, order_unreachable}
use ordely.Calls.Service.Queueing.{queue_refused, queue-IsQueued}
use ordely.Calls.Service.QueueAll.{queue_all_pending-orders}
use ordely.Calls.Service.Highest.{update-reopened}
use ordely.Calls.Service.Review.{retry_after_review_refused, retry_after_review-IsRetried}
use ordely.Calls.Dispatcher.{VoiceCallTask, StartTaskResult}
use ordely.Calls.Dispatcher.Effects.{dispatch_call-orders}
use ordely.Calls.Orchestrator.Evolution.{poll_pass-Evolves}
use ordely.System.{Step, Reach}

queue-orders :
    (clock : LocalClock) (now boutique_id order_id : ℕ) (db : Db)
    → (final (queue clock now boutique_id order_id) db).orders ≡ db.orders
queue-orders clock now b o db = elim (Result-cases (result (queue clock now b o) db)) [
  | inl (e, refused) ↦ rw (queue_refused clock now b o db refused)
  | inr (call, done) ↦ (queue-IsQueued clock now b o db done).orders
]

is_unreachable : (s : OrderStatus) → order_unreachable s ≡ true → Moves s OrderStatus.pending
is_unreachable OrderStatus.pending h = cc
is_unreachable OrderStatus.confirmed h = cc
is_unreachable OrderStatus.cancelled h = cc
is_unreachable OrderStatus.unreachable h = Moves.reopen

retry-Evolves :
    (now boutique_id order_id : ℕ) (db : Db)
    → Evolves db.orders (final (retry_after_review now boutique_id order_id) db).orders
retry-Evolves now b o db = elim (Result-cases (result (retry_after_review now b o) db)) [
  | inl (e, refused) ↦ rw (retry_after_review_refused now b o db refused) (Evolves-refl db.orders)
  | inr (call, done) ↦
      rw ((retry_after_review-IsRetried now b o db done).orders, ← update-reopened b o db.orders)
        (Evolves-update (reopens b o) OrderStatus.pending db.orders
          (λ x selected. is_unreachable x.status (ground arith)))
]

-- A row that is not among the removed ones is found as before.
find-delete_other :
    (q p : Order → Bool) (rows : List Order) {o : Order}
    → find q rows ≡ some o
    → p o ≡ false
    → find q (delete p rows) ≡ some o
unfolding find delete
find-delete_other q p [] e n = cc
find-delete_other q p (r ∷ rows) e n = elim (Bool-cases (q r)) [
  | inl here ↦ let stays : p r ≡ false = ground arith in rw (stays, here) (rw here at e)
  | inr elsewhere ↦
      let rest = find-delete_other q p rows (rw elsewhere at e) n in
      elim (Bool-cases (p r)) [
        | inl deleted ↦ rw deleted rest
        | inr stays ↦ rw (stays, elsewhere) rest
      ]
]

find-remove_other :
    (boutique_id k id : ℕ) (db : Db) {o : Order}
    → find (λ x. x.id == id) db.orders ≡ some o
    → own_order boutique_id k o ≡ false
    → find (λ x. x.id == id) (final (remove boutique_id k) db).orders ≡ some o
unfolding remove delete_order emit
find-remove_other b k id db e n = elim (Bool-cases (count (own_order b k) db.orders == 0)) [
  | inl missing ↦ rw (missing, final) e
  | inr there ↦
      rw (there, final) (find-delete_other (λ x. x.id == id) (own_order b k) db.orders e n)
]

other_order :
    (k boutique_id id : ℕ) (o : Order)
    → o.id ≡ id
    → (k == id && boutique_id == o.boutique_id) ≡ false
    → own_order boutique_id k o ≡ false
other_order k b id o e spared = elim (Bool-cases (k == id && b == o.boutique_id)) [
  | inl t ↦ cc
  | inr f ↦ ground (arith, ==_iff k id, ==_iff b o.boutique_id)
]

find_found_before :
    (q : Order → Bool) (rows news : List Order) {o : Order}
    → find q rows ≡ some o
    → find q (rows ++ news) ≡ some o
unfolding find
find_found_before q [] news e = cc
find_found_before q (r ∷ rows) news {o} e = ground (arith, find_found_before q rows news {o = o})

find-create :
    (now boutique_id id : ℕ) (dto : CreateOrderDto) (db : Db) {o : Order}
    → find (λ x. x.id == id) db.orders ≡ some o
    → find (λ x. x.id == id) (create now boutique_id dto db).1.orders ≡ some o
unfolding create emit
find-create now b id dto db e = find_found_before _ db.orders _ e

module _ (clock : LocalClock) (min : Number) (start_task : VoiceCallTask → StartTaskResult)
    (has_capacity : ℕ → Bool) where
  -- The step is no request to remove that order of that shop.
  abbrev pub Spares :
      ℕ → ℕ → {before after : Db} → Step clock min start_task has_capacity before after → Type 0
  Spares boutique_id id (Step.removed b k e) = (k == id && b == boutique_id) ≡ false
  Spares boutique_id id _ = Unit {0}

  abbrev pub AllSpare :
      ℕ → ℕ → {before after : Db} → Reach clock min start_task has_capacity before after → Type 0
  AllSpare boutique_id id (Reach.stay db) = Unit {0}
  AllSpare boutique_id id (Reach.go before middle after s r) =
      Spares boutique_id id s × AllSpare boutique_id id r

  module _ (id : ℕ) (o : Order) where
    abbrev Found : Db → Type 0
    Found db = find (λ x. x.id == id) db.orders ≡ some o

    abbrev Lives : Db → Type 0
    Lives db = LivesOn o (find (λ x. x.id == id) db.orders)

    lives :
        (before : Db) (after : List Order)
        → Found before
        → Evolves before.orders after
        → LivesOn o (find (λ x. x.id == id) after)
    lives before after e f = LivesOn-find id before.orders after o f e

    lives_unchanged :
        (before : Db) (after : List Order)
        → Found before
        → after ≡ before.orders
        → LivesOn o (find (λ x. x.id == id) after)
    lives_unchanged before after e same = rw same (LivesOn-self o _ e)

    Step-Life :
        (before after : Db) (s : Step clock min start_task has_capacity before after)
        → Found before
        → Spares o.boutique_id id s
        → Lives after
    Step-Life before after (Step.queued now b k e) there spared =
        subst Lives e (lives_unchanged before _ there (queue-orders clock now b k before))
    Step-Life before after (Step.queued_all now b e) there spared =
        subst Lives e (lives_unchanged before _ there (queue_all_pending-orders clock now b before))
    Step-Life before after (Step.created now b dto e) there spared =
        subst Lives e (LivesOn-self o _ (find-create now b id dto before there))
    Step-Life before after (Step.retried now b k e) there spared =
        subst Lives e (lives before _ there (retry-Evolves now b k before))
    Step-Life before after (Step.dispatched now uuid b c active e) there spared =
        subst Lives e
          (lives_unchanged before _ there (dispatch_call-orders clock now uuid start_task b c _))
    Step-Life before after (Step.polled now uuid cursor active e) there spared =
        subst Lives e
          (lives before _ there (poll_pass-Evolves clock now uuid start_task has_capacity cursor _))
    Step-Life before after (Step.answered now reported read e) there spared =
        subst Lives e (lives before _ there (apply_result-Evolves min now reported read before))
    Step-Life before after (Step.reported dto read e) there spared =
        subst Lives e (lives before _ there (apply_report-Evolves min dto read before))
    Step-Life before after (Step.ticked send dest timeout now e) there spared =
        subst Lives e
          (lives_unchanged before _ there (run_pass-orders send dest timeout now before))
    Step-Life before after (Step.removed b k e) there spared =
        let own_id : o.id ≡ id =
          (==_iff o.id id).0 (find-holds (λ x. x.id == id) before.orders there) in
        subst Lives e (
          LivesOn-self o _
            (find-remove_other b k id before there (other_order k b id o own_id spared)))

  -- Whatever steps run, in any order: an order that is found under its id, and that no step is asked
  -- to remove, is found under it when they have run, with all its columns but its status, which has
  -- moved only along the life of an order: from pending to confirmed, cancelled or unreachable, and
  -- from unreachable back to pending.
  pub Reach-Life :
      (before after : Db) (r : Reach clock min start_task has_capacity before after) (id : ℕ)
      (o : Order)
      → find (λ x. x.id == id) before.orders ≡ some o
      → AllSpare o.boutique_id id r
      → LivesOn o (find (λ x. x.id == id) after.orders)
  Reach-Life before after (Reach.stay db) id o there spared = LivesOn-self o _ there
  Reach-Life before after (Reach.go a middle b s r) id o there (now_spared, spared) =
      let (o', found, columns, life) = Step-Life id o before middle s there now_spared in
      let (o'', found_then, columns_then, life_then) =
        Reach-Life middle after r id o' found
          (subst (λ k. AllSpare k id r) (sym (ap (λ x. x.boutique_id) columns)) spared) in
      (
        o'',
        found_then,
        columns_then ∙ ap (has_status o''.status) columns,
        Life-trans o.status o'.status o''.status life life_then,
      )
