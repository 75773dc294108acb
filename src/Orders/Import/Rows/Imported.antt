-- ===== src/Orders/Import/Rows/Imported.antt =====
-- What an import of orders writes: `importCsv` of backend/src/orders/orders.service.ts.
use ordely.Common.{
  ℕ, suc, ◌+◌, ◌≤◌, ◌≡◌, refl, sym, ◌∙◌, ap, Option, List, [], ◌∷◌, ◌++◌, arith, ltb, length, take,
  All, Bool-cases, Option-cases, inl, inr, result, final, ok, err, bad_request, HttpError,
}
use ordely.Common.Text.{Text}
use ordely.Store.{OrderStatus, Order, Db, emit}
use ordely.Orders.Csv.{parse_csv_line}
use ordely.Orders.Import.{map_columns, lines_of_file}
use ordely.Orders.Import.Rows.{
  Total, ImportRow, ImportResult, read_rows, order_of_row, create_all, import_csv, max_import_rows,
}
use ordely.Orders.Import.Rows.Accepted.{IsAccepted, read_rows-Accepted}

-- The orders that stand after an import, and what is known of the new ones.
abbrev pub NewOrder : ℕ → Order → Type 0
NewOrder boutique_id o =
    IsAccepted o.customer o.phone o.items
    × (o.boutique_id ≡ boutique_id)
    × (o.status ≡ OrderStatus.pending)

append_nil : (xs : List Order) → xs ++ [] ≡ xs
append_nil [] = refl
append_nil (x ∷ xs) = ap (λ l. x ∷ l) (append_nil xs)

create_all-orders :
    (now boutique_id : ℕ) (rows : List ImportRow) (db : Db)
    → All (λ r. IsAccepted r.customer r.phone r.items) rows
    → (news : List Order) × ((create_all now boutique_id rows db).orders ≡ db.orders ++ news)
      × (length news ≡ length rows)
      × All (NewOrder boutique_id) news
unfolding create_all
create_all-orders now b [] db a = ([], sym (append_nil db.orders), refl, tt)
create_all-orders now b (r ∷ rows) db (c, a) =
    let o = order_of_row db.next_order_id now b r in
    let (news, same, many, all_new) =
      create_all-orders now b rows
        (record db { orders = db.orders ++ o ∷ []; next_order_id = db.next_order_id + 1 }) a in
    (o ∷ news, same ∙ append_assoc_one db.orders o news, ap suc many, ((c, refl, refl), all_new))
  where
    append_assoc_one :
        (xs : List Order) (o : Order) (ys : List Order) → (xs ++ o ∷ []) ++ ys ≡ xs ++ o ∷ ys
    append_assoc_one [] o ys = refl
    append_assoc_one (x ∷ xs) o ys = ap (λ l. x ∷ l) (append_assoc_one xs o ys)

create_all-calls :
    (now boutique_id : ℕ) (rows : List ImportRow) (db : Db)
    → (create_all now boutique_id rows db).calls ≡ db.calls
unfolding create_all
create_all-calls now b [] db = refl
create_all-calls now b (r ∷ rows) db = create_all-calls now b rows _

module _ (parse_float : Text → Option Total) (now boutique_id : ℕ) (text : Text) (db : Db) where
  abbrev rows_of : List Text → List Text
  rows_of [] = []
  rows_of (h ∷ rows) = rows

  pub record IsImported (r : ImportResult) (after : Db) : Type 0 where
    pub rows : ℕ
    pub rows_are : rows ≡ length (rows_of (lines_of_file text))
    pub limits : (1 ≤ rows) × (rows ≤ 5000)
    pub counted : r.imported + r.failed ≡ rows
    pub news : List Order
    pub orders : after.orders ≡ db.orders ++ news
    pub as_many : length news ≡ r.imported
    pub accepted : All (NewOrder boutique_id) news
    pub calls : after.calls ≡ db.calls

  -- An import that succeeds counts each row after the header once, as imported or as failed, of
  -- which there are 1 to 5000. It adds one pending order of the shop for each imported row and
  -- changes no other: with a customer of 1 to 100 characters, a phone number, and at least one
  -- item, each of 1 to 1000 pieces.
  pub import_csv-IsImported :
      {r : ImportResult}
      → result (import_csv parse_float now boutique_id text) db ≡ ok r
      → IsImported r (final (import_csv parse_float now boutique_id text) db)
  unfolding import_csv emit
  import_csv-IsImported {r} h = by_lines (lines_of_file text) refl
    where
      by_lines :
          (lines : List Text)
          → lines_of_file text ≡ lines
          → IsImported r (final (import_csv parse_float now boutique_id text) db)
      by_lines [] e = absurd (ground arith)
      by_lines (header ∷ []) e = absurd (ground arith)
      by_lines (header ∷ line ∷ lines) e =
          elim (Option-cases (map_columns (parse_csv_line header))) [
            | inl missing ↦ absurd (ground arith)
            | inr (columns, mapped) ↦ elim (Bool-cases (ltb max_import_rows (suc (length lines)))) [
              | inl many ↦ absurd (ground arith)
              | inr few ↦
                  let read = read_rows parse_float columns 2 (line ∷ lines) in
                  let (accepted, counted) =
                    read_rows-Accepted parse_float columns 2 (line ∷ lines) in
                  let (news, orders, as_many, all_new) =
                    create_all-orders now boutique_id read.valid db accepted in
                  let answer : r ≡ record {
                    imported = length read.valid;
                    failed = length read.errors;
                    errors = take 50 read.errors;
                  } =
                    ground arith in
                  elim (Bool-cases (ltb 0 (length read.valid))) [
                    | inl some_row ↦
                        rw (e, mapped, few, some_row, final)
                          (record {
                            rows = suc (length lines);
                            rows_are = rw e refl;
                            limits = (omega arith, ground arith);
                            counted = ground (arith, answer, counted);
                            news = news;
                            orders = orders;
                            as_many = ground (arith, as_many, answer);
                            accepted = all_new;
                            calls = create_all-calls now boutique_id read.valid db;
                          })
                    | inr no_row ↦
                        rw (e, mapped, few, no_row, final)
                          (record {
                            rows = suc (length lines);
                            rows_are = rw e refl;
                            limits = (omega arith, ground arith);
                            counted = ground (arith, answer, counted);
                            news = news;
                            orders = orders;
                            as_many = ground (arith, as_many, answer);
                            accepted = all_new;
                            calls = create_all-calls now boutique_id read.valid db;
                          })
                  ]
            ]
          ]

  -- An import that is refused changes nothing, and is refused as a bad request: no data row, a
  -- missing column, or too many rows.
  pub import_csv_refused :
      {e : HttpError}
      → result (import_csv parse_float now boutique_id text) db ≡ err e
      → (e ≡ bad_request) × (final (import_csv parse_float now boutique_id text) db ≡ db)
  unfolding import_csv emit
  import_csv_refused {e} h = ground arith
