-- ===== src/Orders/Import/Rows.antt =====
-- The rows of an import: `importCsv` of backend/src/orders/orders.service.ts.
pub mod Accepted
pub mod Imported
use ordely.Common.{
  ℕ, zero, suc, ◌+◌, ◌-◌, ◌*◌, String, Bool, true, false, not, ◌&&◌, ◌||◌, Option, none, some, List,
  [], ◌∷◌, ◌++◌, map, if◌then◌else◌, ltb, leb, ◌==◌, ◌orelse◌, is_set, length, take, drop,
  get_elem?, any, all, Exec, refuse, require, gets, modify, pure, when, ◌>>=◌, ◌>>◌, bad_request,
}
use ordely.Common.Text.{Text}
use ordely.Store.{OrderStatus, Order, Item, Db, emit, OrderNews, order_created, imported}
use ordely.Voice.Rules.{trim, trim_start, is_digit}
use ordely.Orders.Csv.{parse_csv_line}
use ordely.Orders.Import.{ColMap, map_columns, lines_of_file, parts_of}

pub data RowError : Type 0 where
  customer_empty customer_long phone_empty phone_invalid item_empty item_long : RowError
  quantity_not_a_number quantity_below quantity_above : RowError
  total_not_a_number total_negative total_above : RowError

-- `/^\+?[0-9][0-9 ]{6,18}$/`
abbrev pub phone_rest : Text → Bool
phone_rest [] = false
phone_rest (c ∷ t) =
    is_digit c && all (λ d. is_digit d || d == 32) t && leb 6 (length t) && leb (length t) 18

unfoldable pub is_phone : Text → Bool
is_phone [] = false
is_phone (c ∷ t) = if c == b'+' then phone_rest t else phone_rest (c ∷ t)

-- The digits that a text starts with, as a number; none without a digit.
unfoldable pub digits_from : Option ℕ → Text → Option ℕ
digits_from value [] = value
digits_from value (c ∷ t) =
    let more = digits_from (some ((value orelse 0) * 10 + (c - b'0'))) t in
    if is_digit c then more else value

pub record Parsed : Type 0 where
  pub is_negative : Bool
  pub value : ℕ

abbrev signed : Bool → Option ℕ → Option Parsed
signed is_negative none = none
signed is_negative (some n) = some (record { is_negative = is_negative; value = n })

abbrev signed_text : Text → Option Parsed
signed_text [] = none
signed_text (c ∷ t) =
    if c == b'-'
    then signed true (digits_from none t)
    else if c == b'+'
    then signed false (digits_from none t)
    else signed false (digits_from none (c ∷ t))

-- `parseInt(text, 10)`
unfoldable pub parse_int : Text → Option Parsed
unfolding trim_start digits_from
parse_int t = signed_text (trim_start t)

unfoldable pub quantity_of : Text → Option RowError × ℕ
unfolding parse_int
quantity_of raw = elim (parse_int raw) [
  | none ↦ (some RowError.quantity_not_a_number, 0)
  | some q ↦
      if q.is_negative || q.value == 0
      then (some RowError.quantity_below, 0)
      else if ltb 1000 q.value
      then (some RowError.quantity_above, 0)
      else (none, q.value)
]

pub record ParsedItem : Type 0 where
  pub product_name : Text
  pub quantity : ℕ

abbrev pub add_item :
    Text
    → Option RowError × ℕ
    → Option RowError × List ParsedItem
    → Option RowError × List ParsedItem
add_item name (some e, q) rest = (some e, [])
add_item name (none, q) (e, items) = (e, record { product_name = name; quantity = q } ∷ items)

-- The loop over the items of a row: the quantities run along, and the first one stands for those
-- that are missing. It stops at the first error.
unfoldable pub parse_items : Text → List Text → List Text → Option RowError × List ParsedItem
unfolding quantity_of
parse_items first qtys [] = (none, [])
parse_items first [] (name ∷ names) = add_item name (quantity_of first) (parse_items first [] names)
parse_items first (q ∷ qtys) (name ∷ names) =
    add_item name (quantity_of q) (parse_items first qtys names)

-- A number as the import uses it: its tests, its column, and its share of a quantity.
pub record Total : Type 0 where
  pub is_negative : Bool
  pub above_million : Bool
  pub millimes : ℕ
  pub unit_price : ℕ → ℕ

abbrev pub error_if : Bool → RowError → List RowError
error_if true e = e ∷ []
error_if false e = []

abbrev pub of_option : Option RowError → List RowError
of_option none = []
of_option (some e) = e ∷ []

abbrev pub customer_errors : Text → List RowError
customer_errors t =
    if length t == 0
    then RowError.customer_empty ∷ []
    else error_if (ltb 100 (length t)) RowError.customer_long

abbrev pub phone_errors : Text → List RowError
phone_errors t =
    if length t == 0
    then RowError.phone_empty ∷ []
    else error_if (not (is_phone t)) RowError.phone_invalid

abbrev pub item_errors : List Text → List RowError
item_errors [] = RowError.item_empty ∷ []
item_errors (i ∷ items) = error_if (any (λ p. ltb 200 (length p)) (i ∷ items)) RowError.item_long

-- The items of a row with their error, if there is one.
abbrev pub items_of : List Text → List Text → Option RowError × List ParsedItem
items_of qtys [] = (none, [])
items_of [] (i ∷ items) = (some RowError.quantity_not_a_number, [])
items_of (q ∷ qtys) (i ∷ items) = parse_items q (q ∷ qtys) (i ∷ items)

abbrev pub total_errors : Option Total → List RowError
total_errors none = RowError.total_not_a_number ∷ []
total_errors (some t) =
    if t.is_negative
    then RowError.total_negative ∷ []
    else error_if t.above_million RowError.total_above

pub record Row : Type 0 where
  pub customer : Text
  pub phone : Text
  pub names : List Text
  pub items : Option RowError × List ParsedItem
  pub total : Option Total

abbrev pub row_errors : Row → List RowError
row_errors r =
    customer_errors r.customer
    ++ phone_errors r.phone
    ++ item_errors r.names
    ++ of_option r.items.0
    ++ total_errors r.total

unfoldable pub total_quantity : List ParsedItem → ℕ
total_quantity [] = 0
total_quantity (i ∷ items) = i.quantity + total_quantity items

pub record ImportRow : Type 0 where
  pub customer : Text
  pub phone : Text
  pub items : List Item
  pub total : ℕ

abbrev pub item_row : ℕ → ParsedItem → Item
item_row price i = record {
  product_name = i.product_name;
  quantity = i.quantity;
  unit_price = price;
}

-- `totalQty > 0 ? total / totalQty : total`
abbrev pub import_row : Row → Total → ImportRow
import_row r t =
    let qty = total_quantity r.items.1 in
    record {
      customer = r.customer;
      phone = r.phone;
      items = map (item_row (if qty == 0 then t.millimes else t.unit_price qty)) r.items.1;
      total = t.millimes;
    }

-- Rows that are valid, and the errors of the others by row number.
pub record Read : Type 0 where
  pub valid : List ImportRow
  pub errors : List (ℕ × List RowError)

abbrev pub add_row : ℕ → Row → List RowError → Option Total → Read → Read
add_row n r [] (some t) rest = record rest { valid = import_row r t ∷ rest.valid }
add_row n r es _ rest = record rest { errors = (n, es) ∷ rest.errors }

abbrev pub order_of_row : ℕ → ℕ → ℕ → ImportRow → Order
order_of_row id now boutique_id r = record {
  id = id;
  boutique_id = boutique_id;
  customer = r.customer;
  phone = r.phone;
  total = r.total;
  status = OrderStatus.pending;
  created_at = now;
  items = r.items;
}

-- `$transaction(valid.map(...))`
unfoldable pub create_all : ℕ → ℕ → List ImportRow → Db → Db
create_all now boutique_id [] db = db
create_all now boutique_id (r ∷ rows) db = create_all now boutique_id rows (record db {
  orders = db.orders ++ order_of_row db.next_order_id now boutique_id r ∷ [];
  next_order_id = db.next_order_id + 1;
})

pub record ImportResult : Type 0 where
  pub imported : ℕ
  pub failed : ℕ
  pub errors : List (ℕ × List RowError)

abbrev pub max_import_rows : ℕ
max_import_rows = 5000

abbrev pub header_of : List Text → Option (Text × List Text)
header_of [] = none
header_of (h ∷ []) = none
header_of (h ∷ l ∷ lines) = some (h, l ∷ lines)

module _ (parse_float : Text → Option Total) where
  abbrev pub cell : List Text → ℕ → Text
  cell cells i = trim (get_elem? cells i orelse [])

  abbrev total_of : Text → Option Total
  total_of [] = none
  total_of (c ∷ t) = parse_float (c ∷ t)

  abbrev pub read_row : ColMap → Text → Row
  read_row columns line =
      let cells = parse_csv_line line in
      let names = parts_of (cell cells columns.item) in
      record {
        customer = cell cells columns.customer;
        phone = cell cells columns.phone;
        names = names;
        items = items_of (parts_of (cell cells columns.quantity)) names;
        total = total_of (cell cells columns.total);
      }

  unfoldable pub read_rows : ColMap → ℕ → List Text → Read
  unfolding total_quantity is_phone
  read_rows columns n [] = record { valid = []; errors = [] }
  read_rows columns n (line ∷ lines) =
      let row = read_row columns line in
      add_row n row (row_errors row) row.total (read_rows columns (n + 1) lines)

  unfoldable pub import_csv : ℕ → ℕ → Text → Exec Db ImportResult
  unfolding create_all emit read_rows
  import_csv now boutique_id text = do
    (header, rows) ← require bad_request (header_of (lines_of_file text))
    columns ← require bad_request (map_columns (parse_csv_line header))
    refuse (ltb max_import_rows (length rows)) bad_request
    let read = read_rows columns 2 rows in
        do
          modify (create_all now boutique_id read.valid)
          when (ltb 0 (length read.valid))
              (modify (emit (order_created boutique_id 0 OrderNews.imported)))
          pure (record {
            imported = length read.valid;
            failed = length read.errors;
            errors = take 50 read.errors;
          })
