-- ===== src/Calls/Service/Rows.antt =====
-- The rows that the requests of calls.service.ts read.
use ordely.Common.{
  ℕ, ◌≡◌, refl, Bool, true, false, none, some, Option-cases, List, [], ◌∷◌, arith, ◌&&◌, ◌==◌, map,
  length, find, find-holds, select, count, count_of_select, any, inl, inr,
}
use ordely.Store.{
  Boutique, call_hours, boutique_of, OrderStatus, Order, Call, Db, calls_of, attempt_taken,
  call_pending,
}
use ordely.Calls.Policy.{LocalClock, is_within_call_window}
use ordely.Calls.Policy.Window.{
  IsOpen, is_within_call_window-IsOpen, is_within_call_window_of_IsOpen,
}
use ordely.Calls.Service.{open_now, find_order, any_pending, order_unreachable}

-- The order that is found has the id and the shop that were asked for.
pub find_order_row :
    (boutique_id id : ℕ) (db : Db) {o : Order}
    → find_order boutique_id id db ≡ some o
    → (o.id ≡ id) × (o.boutique_id ≡ boutique_id)
unfolding find_order
find_order_row boutique_id id db {o} h =
    let holds : (o.id == id && o.boutique_id == boutique_id) ≡ true =
      find-holds (λ x. x.id == id && x.boutique_id == boutique_id) db.orders h in
    (ground arith, ground arith)

pub none_pending :
    (order_id : ℕ) (db : Db)
    → any_pending (calls_of order_id db) ≡ false
    → count (λ c. c.order_id == order_id && call_pending c.status) db.calls ≡ 0
unfolding calls_of
none_pending order_id db idle =
    count_of_select (λ c. c.order_id == order_id) (λ c. call_pending c.status) db.calls idle

length-select :
    {A B : Type 0} (f : A → B) (q : A → Bool) (rows : List A)
    → length (map f (select q rows)) ≡ count q rows
unfolding select count
length-select f q [] = refl
length-select f q (r ∷ rows) = ground (arith, length-select f q rows)

-- The attempts of an order are as many as its calls.
pub length-calls_of :
    {A : Type 0} (f : Call → A) (order_id : ℕ) (db : Db)
    → length (map f (calls_of order_id db)) ≡ count (λ c. c.order_id == order_id) db.calls
unfolding calls_of
length-calls_of f order_id db = length-select f (λ c. c.order_id == order_id) db.calls

pub is_unreachable : (s : OrderStatus) → order_unreachable s ≡ true → s ≡ OrderStatus.unreachable
is_unreachable OrderStatus.pending h = cc
is_unreachable OrderStatus.confirmed h = cc
is_unreachable OrderStatus.cancelled h = cc
is_unreachable OrderStatus.unreachable h = refl

-- A shop that is open is a row whose hours the local time is between.
pub open_now-IsOpen :
    (clock : LocalClock) (now boutique_id : ℕ) (db : Db)
    → open_now clock now boutique_id db ≡ true
    → (shop : Boutique) × (find (λ b. b.id == boutique_id) db.boutiques ≡ some shop)
      × IsOpen clock shop.call_start_time shop.call_end_time now
unfolding call_hours boutique_of
open_now-IsOpen clock now boutique_id db h =
    elim (Option-cases (find (λ b. b.id == boutique_id) db.boutiques)) [
      | inl missing ↦
          let never : is_within_call_window clock none none now ≡ true = rw missing at h in
          absurd (cc ((is_within_call_window-IsOpen clock none none now never).starts))
      | inr (shop, found) ↦ (
        shop,
        found,
        is_within_call_window-IsOpen clock shop.call_start_time shop.call_end_time now
            (rw found at h),
      )
    ]

any_of_count :
    {A : Type 0} (q p : A → Bool) (rows : List A)
    → count (λ r. q r && p r) rows ≡ 0
    → any p (select q rows) ≡ false
unfolding count select
any_of_count q p [] h = refl
any_of_count q p (r ∷ rows) h = ground (arith, any_of_count q p rows)

pub idle_of_count :
    (order_id : ℕ) (db : Db)
    → count (λ c. c.order_id == order_id && call_pending c.status) db.calls ≡ 0
    → any_pending (calls_of order_id db) ≡ false
unfolding calls_of
idle_of_count order_id db h =
    any_of_count (λ c. c.order_id == order_id) (λ c. call_pending c.status) db.calls h

untaken : (p : Call → Bool) (rows : List Call) → count p rows ≡ 0 → any p rows ≡ false
unfolding count
untaken p [] h = refl
untaken p (r ∷ rows) h = ground (arith, untaken p rows)

pub untaken_of_count :
    (order_id attempt : ℕ) (db : Db)
    → count (λ c. c.order_id == order_id && c.attempt == attempt) db.calls ≡ 0
    → attempt_taken order_id attempt db ≡ false
untaken_of_count order_id attempt db h =
    untaken (λ c. c.order_id == order_id && c.attempt == attempt) db.calls h

pub open_now_of_IsOpen :
    (clock : LocalClock) (now boutique_id : ℕ) (db : Db) {shop : Boutique}
    → find (λ b. b.id == boutique_id) db.boutiques ≡ some shop
    → IsOpen clock shop.call_start_time shop.call_end_time now
    → open_now clock now boutique_id db ≡ true
unfolding call_hours boutique_of
open_now_of_IsOpen clock now boutique_id db {shop} found opened =
    rw found
      (is_within_call_window_of_IsOpen clock shop.call_start_time shop.call_end_time now opened)
