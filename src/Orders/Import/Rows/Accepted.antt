-- ===== src/Orders/Import/Rows/Accepted.antt =====
-- The checks of a row of an import, and what they promise of the order that it becomes.
use ordely.Common.{
  ℕ, suc, ◌+◌, ◌≤◌, ◌≡◌, refl, ap, true, Option, none, some, List, [], ◌∷◌, ◌++◌, map, arith,
  if◌then◌else◌, ◌==◌, length, All, Option-cases, inl, inr,
}
use ordely.Common.Text.{Text}
use ordely.Store.{Item}
use ordely.Orders.Csv.{parse_csv_line}
use ordely.Orders.Import.{parts_of, ColMap}
use ordely.Orders.Import.Rows.{
  RowError, Row, ParsedItem, Total, ImportRow, Read, is_phone, quantity_of, parse_int, parse_items,
  add_item, items_of, row_errors, customer_errors, phone_errors, item_errors, of_option,
  total_errors, item_row, import_row, add_row, read_row, read_rows, total_quantity, cell,
}

-- An item of an imported order: between 1 and 1000 pieces.
abbrev Counted : ParsedItem → Type 0
Counted i = (1 ≤ i.quantity) × (i.quantity ≤ 1000)

quantity_of-bounds : (raw : Text) (q : ℕ) → quantity_of raw ≡ (none, q) → (1 ≤ q) × (q ≤ 1000)
unfolding quantity_of
quantity_of-bounds raw q h = elim (Option-cases (parse_int raw)) [
  | inl nan ↦ absurd (ground arith)
  | inr (p, parsed) ↦ ground (arith, parsed)
]

add_item-All :
    (name : Text) (raw : Text) (rest : Option RowError × List ParsedItem) (names : List Text)
    → (rest.0 ≡ none → All Counted rest.1 × (length rest.1 ≡ length names))
    → (add_item name (quantity_of raw) rest).0 ≡ none
    → All Counted (add_item name (quantity_of raw) rest).1
      × (length (add_item name (quantity_of raw) rest).1 ≡ suc (length names))
add_item-All name raw (e, items) names k h = by_quantity (quantity_of raw) refl h
  where
    by_quantity :
        (q : Option RowError × ℕ)
        → quantity_of raw ≡ q
        → (add_item name q (e, items)).0 ≡ none
        → All Counted (add_item name q (e, items)).1
          × (length (add_item name q (e, items)).1 ≡ suc (length names))
    by_quantity (some error, n) s h = cc
    by_quantity (none, n) s h =
        let (counted, same) = k h in ((quantity_of-bounds raw n s, counted), omega arith)

parse_items-All :
    (first : Text) (qtys names : List Text)
    → (parse_items first qtys names).0 ≡ none
    → All Counted (parse_items first qtys names).1
      × (length (parse_items first qtys names).1 ≡ length names)
unfolding parse_items
parse_items-All first qtys [] h = (tt, refl)
parse_items-All first [] (name ∷ names) h =
    add_item-All name first (parse_items first [] names) names (parse_items-All first [] names) h
parse_items-All first (q ∷ qtys) (name ∷ names) h =
    add_item-All name q (parse_items first qtys names) names (parse_items-All first qtys names) h

abbrev ItemCounted : Item → Type 0
ItemCounted i = (1 ≤ i.quantity) × (i.quantity ≤ 1000)

-- What the checks of a row promise of the order that it becomes.
pub record IsAccepted (customer phone : Text) (items : List Item) : Type 0 where
  pub customer_length : (1 ≤ length customer) × (length customer ≤ 100)
  pub phone_number : is_phone phone ≡ true
  pub some_item : 1 ≤ length items
  pub counted : All ItemCounted items

items-map :
    (price : ℕ) (items : List ParsedItem)
    → All Counted items
    → All ItemCounted (map (item_row price) items)
      × (length (map (item_row price) items) ≡ length items)
items-map price [] a = (tt, refl)
items-map price (i ∷ items) (c, a) =
    let (b, same) = items-map price items a in ((c, b), ap suc same)

items_of-All :
    (qtys names : List Text)
    → item_errors names ≡ []
    → (items_of qtys names).0 ≡ none
    → All Counted (items_of qtys names).1 × (1 ≤ length (items_of qtys names).1)
items_of-All qtys [] e h = cc
items_of-All [] (n ∷ names) e h = cc
items_of-All (q ∷ qtys) (n ∷ names) e h =
    let (counted, same) = parse_items-All q (q ∷ qtys) (n ∷ names) h in (counted, omega arith)

all_none :
    (a b c d e : List RowError)
    → a ++ b ++ c ++ d ++ e ≡ []
    → (a ≡ []) × (b ≡ []) × (c ≡ []) × (d ≡ []) × (e ≡ [])
all_none [] [] [] [] e h = (refl, refl, refl, refl, h)
all_none [] [] [] (x ∷ d) e h = cc
all_none [] [] (x ∷ c) d e h = cc
all_none [] (x ∷ b) c d e h = cc
all_none (x ∷ a) b c d e h = cc

of_option-none : (e : Option RowError) → of_option e ≡ [] → e ≡ none
of_option-none none h = refl
of_option-none (some e) h = cc

customer-bounds : (t : Text) → customer_errors t ≡ [] → (1 ≤ length t) × (length t ≤ 100)
customer-bounds t h = ground arith

phone-valid : (t : Text) → phone_errors t ≡ [] → is_phone t ≡ true
phone-valid t h = ground arith

row-IsAccepted :
    (r : Row) (t : Total) (qtys : List Text)
    → r.items ≡ items_of qtys r.names
    → row_errors r ≡ []
    → IsAccepted (import_row r t).customer (import_row r t).phone (import_row r t).items
unfolding total_quantity
row-IsAccepted r t qtys same h =
    let (customer, phone, names, items, total) =
      all_none (customer_errors r.customer) (phone_errors r.phone) (item_errors r.names)
        (of_option r.items.0) (total_errors r.total) h in
    let (counted, nonempty) =
      items_of-All qtys r.names names (rw (← same) (of_option-none r.items.0 items)) in
    let (each, as_many) =
      items-map
        (if total_quantity r.items.1 == 0
          then t.millimes
          else t.unit_price (total_quantity r.items.1))
        r.items.1 (rw same counted) in
    record {
      customer_length = customer-bounds r.customer customer;
      phone_number = phone-valid r.phone phone;
      some_item = rw (as_many, same) nonempty;
      counted = each;
    }

module _ (parse_float : Text → Option Total) (columns : ColMap) where
  abbrev Accepted : ImportRow → Type 0
  Accepted r = IsAccepted r.customer r.phone r.items

  read_rows-cases :
      (n : ℕ) (rest : Read) (row : Row) (qtys : List Text)
      → row.items ≡ items_of qtys row.names
      → (All Accepted rest.valid)
      → All Accepted (add_row n row (row_errors row) row.total rest).valid
        × (length (add_row n row (row_errors row) row.total rest).valid
              + length (add_row n row (row_errors row) row.total rest).errors
            ≡ length rest.valid + length rest.errors + 1)
  read_rows-cases n rest row qtys same a = by_errors (row_errors row) row.total refl
    where
      by_errors :
          (es : List RowError) (t : Option Total)
          → row_errors row ≡ es
          → All Accepted (add_row n row es t rest).valid
            × (length (add_row n row es t rest).valid + length (add_row n row es t rest).errors
                ≡ length rest.valid + length rest.errors + 1)
      by_errors [] (some t) e = ((row-IsAccepted row t qtys same e, a), omega arith)
      by_errors [] none e = (a, omega arith)
      by_errors (x ∷ es) t e = (a, omega arith)

  pub read_rows-Accepted :
      (n : ℕ) (lines : List Text)
      → All Accepted (read_rows parse_float columns n lines).valid
        × (length (read_rows parse_float columns n lines).valid
              + length (read_rows parse_float columns n lines).errors
            ≡ length lines)
  unfolding read_rows
  read_rows-Accepted n [] = (tt, omega arith)
  read_rows-Accepted n (line ∷ lines) =
      let (accepted, counted) = read_rows-Accepted (n + 1) lines in
      let (each, one_more) =
        read_rows-cases n (read_rows parse_float columns (n + 1) lines)
          (read_row parse_float columns line)
          (parts_of (cell parse_float (parse_csv_line line) columns.quantity)) refl accepted in
      (each, omega (arith, one_more, counted))
