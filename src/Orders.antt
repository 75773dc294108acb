-- ===== src/Orders.antt =====
-- backend/src/orders/orders.service.ts: the orders of a shop. The poll that `create` requests of the
-- orchestrator is a step of its own.
pub mod Csv
pub mod Import
pub mod Removal
use ordely.Common.{
  ℕ, ◌+◌, ◌*◌, Bool, true, false, not, ◌&&◌, ◌||◌, Option, none, some, List, [], ◌∷◌, ◌++◌, map,
  if◌then◌else◌, ltb, ◌==◌, ◌orelse◌, is_set, Exec, refuse, gets, modify, pure, ◌>>=◌, ◌>>◌,
  not_found, internal, require, find, update, count, delete,
}
use ordely.Common.Text.{Text}
use ordely.Store.{
  OrderStatus, Order, Item, Call, Db, emit, OrderNews, has, deleted, order_created,
  order_status_changed,
}

pub record CreateOrderItemDto : Type 0 where
  pub product_name : Text
  pub quantity : ℕ
  pub unit_price : Option ℕ

pub record CreateOrderDto : Type 0 where
  pub customer : Text
  pub phone : Text
  pub items : List CreateOrderItemDto
  pub total : Option ℕ

-- `dto.items.reduce(...)`
unfoldable pub items_total : List CreateOrderItemDto → ℕ
items_total [] = 0
items_total (i ∷ items) = (i.unit_price orelse 0) * i.quantity + items_total items

abbrev pub item_row : CreateOrderItemDto → Item
item_row i = record {
  product_name = i.product_name;
  quantity = i.quantity;
  unit_price = i.unit_price orelse 0;
}

unfoldable pub new_order : ℕ → ℕ → ℕ → CreateOrderDto → Order
unfolding items_total
new_order id now boutique_id dto = record {
  id = id;
  boutique_id = boutique_id;
  customer = dto.customer;
  phone = dto.phone;
  total = dto.total orelse items_total dto.items;
  status = OrderStatus.pending;
  created_at = now;
  items = map item_row dto.items;
}

unfoldable pub create : ℕ → ℕ → CreateOrderDto → Db → Order × Db
unfolding new_order emit
create now boutique_id dto db =
    let created = new_order db.next_order_id now boutique_id dto in
    (
      created,
      emit (order_created boutique_id created.id (has created.status))
          (record db { orders = db.orders ++ created ∷ []; next_order_id = db.next_order_id + 1 }),
    )

pub record UpdateOrderDto : Type 0 where
  pub status : Option OrderStatus
  pub customer : Option Text
  pub phone : Option Text
  pub total : Option ℕ
  pub item : Option Text
  pub quantity : Option ℕ

abbrev pub revise : UpdateOrderDto → Order → Order
revise dto o = record o {
  status = dto.status orelse o.status;
  customer = dto.customer orelse o.customer;
  phone = dto.phone orelse o.phone;
  total = dto.total orelse o.total;
}

-- `where: { id, boutiqueId }`
abbrev pub own_order : ℕ → ℕ → Order → Bool
own_order boutique_id id o = o.id == id && o.boutique_id == boutique_id

unfoldable pub ensure_exists : ℕ → ℕ → Exec Db (Unit {0})
unfolding count
ensure_exists boutique_id id = do
  n ← gets (λ db. count (own_order boutique_id id) db.orders)
  refuse (n == 0) not_found

abbrev announce_status : ℕ → Order → Option OrderStatus → Db → Db
announce_status boutique_id o none db = db
announce_status boutique_id o (some s) db =
    emit (order_status_changed boutique_id o.id (has o.status)) db

-- `item` and `quantity` are no columns of an order: a query that carries them is refused.
unfoldable pub update_order : ℕ → ℕ → UpdateOrderDto → Exec Db Order
unfolding ensure_exists find update emit
update_order boutique_id id dto = do
  ensure_exists boutique_id id
  refuse (is_set dto.item || is_set dto.quantity) internal
  found ← λ db. require internal (find (λ o. o.id == id) db.orders) db
  modify (λ db. record db { orders = update (λ o. o.id == id) (revise dto) db.orders })
  modify (announce_status boutique_id (revise dto found) dto.status)
  pure (revise dto found)

-- Deleting an order deletes its calls (`onDelete: Cascade`).
unfoldable pub delete_order : ℕ → ℕ → Db → Db
unfolding delete
delete_order boutique_id id db = record db {
  orders = delete (own_order boutique_id id) db.orders;
  calls = delete (λ c. c.order_id == id) db.calls;
}

unfoldable pub remove : ℕ → ℕ → Exec Db (Unit {0})
unfolding delete_order count emit
remove boutique_id id = do
  n ← gets (λ db. count (own_order boutique_id id) db.orders)
  refuse (n == 0) not_found
  modify (delete_order boutique_id id)
  modify (emit (order_status_changed boutique_id id deleted))
