-- ===== src/Orders/Removal.antt =====
-- What the writes of orders leave of other shops' rows and of the calls.
use ordely.Common.{
  ℕ, ◌≤◌, ◌≡◌, refl, Bool, ◌&&◌, List, [], ◌∷◌, arith, ◌==◌, count, delete, final, result, ok, err,
  not_found, Bool-cases, inl, inr,
}
use ordely.Store.{Order, Call, Db, OnePending, call_pending, emit}
use ordely.Orders.{remove, delete_order, own_order, update_order, UpdateOrderDto, ensure_exists}

count-delete-le : (q p : Call → Bool) (rows : List Call) → count q (delete p rows) ≤ count q rows
unfolding count delete
count-delete-le q p [] = omega arith
count-delete-le q p (r ∷ rows) = ground (arith, count-delete-le q p rows)

count-delete : (p : Call → Bool) (rows : List Call) → count p (delete p rows) ≡ 0
unfolding count delete
count-delete p [] = refl
count-delete p (r ∷ rows) = ground (arith, count-delete p rows)

count-delete-order : (p : Order → Bool) (rows : List Order) → count p (delete p rows) ≡ 0
unfolding count delete
count-delete-order p [] = refl
count-delete-order p (r ∷ rows) = ground (arith, count-delete-order p rows)

-- Removing an order keeps at most one pending call for each order.
pub remove-OnePending :
    (boutique_id id : ℕ) (db : Db) → OnePending db → OnePending (final (remove boutique_id id) db)
unfolding remove delete_order emit
remove-OnePending boutique_id id db one k =
    elim (Bool-cases (count (own_order boutique_id id) db.orders == 0)) [
      | inl missing ↦ ground (arith, one k)
      | inr there ↦ ground (
        arith,
        one k,
        count-delete-le (λ c. c.order_id == k && call_pending c.status) (λ c. c.order_id == id)
            db.calls,
      )
    ]

-- A removal that succeeds leaves the shop no order with that id, and no call of it.
pub remove_done :
    (boutique_id id : ℕ) (db : Db)
    → result (remove boutique_id id) db ≡ ok tt
    → let after = final (remove boutique_id id) db in
      (count (own_order boutique_id id) after.orders ≡ 0)
      × (count (λ c. c.order_id == id) after.calls ≡ 0)
unfolding remove delete_order emit
remove_done boutique_id id db h =
    elim (Bool-cases (count (own_order boutique_id id) db.orders == 0)) [
      | inl missing ↦ absurd (ground arith)
      | inr there ↦ (
        ground (arith, count-delete-order (own_order boutique_id id) db.orders),
        ground (arith, count-delete (λ c. c.order_id == id) db.calls),
      )
    ]

-- An order of another shop can be neither removed nor changed: the request is refused as if the
-- order did not exist, and nothing is written.
pub foreign_order_refused :
    (boutique_id id : ℕ) (dto : UpdateOrderDto) (db : Db)
    → count (own_order boutique_id id) db.orders ≡ 0
    → (remove boutique_id id db ≡ (err not_found, db))
      × (update_order boutique_id id dto db ≡ (err not_found, db))
unfolding remove update_order ensure_exists
foreign_order_refused boutique_id id dto db h = (ground arith, ground arith)
