-- ===== src/Orders/Import.antt =====
-- `importCsv` and `mapColumns` of backend/src/orders/orders.service.ts, from the decoded text of the
-- file. `parseFloat` of a total is a parameter: a number is read through the tests and the columns
-- that it is used for.
pub mod Rows
use ordely.Common.{
  ℕ, zero, suc, ◌+◌, ◌-◌, ◌*◌, String, Bool, true, false, not, ◌&&◌, ◌||◌, Option, none, some, List,
  [], ◌∷◌, ◌++◌, map, if◌then◌else◌, ltb, leb, ◌==◌, ◌orelse◌, is_set, length, take, drop,
  get_elem?, all, Exec, refuse, require, modify, pure, when, ◌>>=◌, ◌>>◌, bad_request,
}
use ordely.Common.Text.{Text, codes, text_eq}
use ordely.Store.{OrderStatus, Order, Item, Db, emit, OrderNews, order_created, imported}
use ordely.Voice.Rules.{trim, is_digit, is_space}
use ordely.Orders.Csv.{parse_csv_line}

-- `replace(/\r\n?/g, '\n')`
unfoldable pub unix_lines : Text → Text
unix_lines [] = []
unix_lines (c ∷ []) = if c == 13 then 10 ∷ [] else c ∷ []
unix_lines (c ∷ d ∷ t) =
    let rest = unix_lines (d ∷ t) in
    let after = unix_lines t in
    if c == 13 then if d == 10 then 10 ∷ after else 10 ∷ rest else c ∷ rest

abbrev add_to : ℕ → List Text → List Text
add_to c [] = (c ∷ []) ∷ []
add_to c (piece ∷ pieces) = (c ∷ piece) ∷ pieces

-- `split` by one character.
unfoldable pub split : ℕ → Text → List Text
split s [] = [] ∷ []
split s (c ∷ t) = let rest = split s t in if c == s then [] ∷ rest else add_to c rest

abbrev pub is_blank : Text → Bool
is_blank t = length (trim t) == 0

unfoldable pub without_blank : List Text → List Text
unfolding trim
without_blank [] = []
without_blank (l ∷ lines) = let rest = without_blank lines in if is_blank l then rest else l ∷ rest

unfoldable pub lines_of_file : Text → List Text
unfolding unix_lines split without_blank
lines_of_file text = without_blank (split 10 (unix_lines text))

-- `split(';')`, trimmed, without the empty pieces.
unfoldable pub parts_of : Text → List Text
unfolding split without_blank trim
parts_of t = without_blank (map trim (split b';' t))

pub data Column : Type 0 where
  customer phone item quantity total : Column

abbrev pub same_column : Column → Column → Bool
same_column Column.customer Column.customer = true
same_column Column.phone Column.phone = true
same_column Column.item Column.item = true
same_column Column.quantity Column.quantity = true
same_column Column.total Column.total = true
same_column _ _ = false

-- `COL_ALIASES`
abbrev pub col_aliases : List (String × Column)
col_aliases =
    ("customer", Column.customer)
    ∷ ("client", Column.customer)
    ∷ ("name", Column.customer)
    ∷ ("phone", Column.phone)
    ∷ ("telephone", Column.phone)
    ∷ ("tel", Column.phone)
    ∷ ("item", Column.item)
    ∷ ("product", Column.item)
    ∷ ("article", Column.item)
    ∷ ("quantity", Column.quantity)
    ∷ ("qty", Column.quantity)
    ∷ ("total", Column.total)
    ∷ ("price", Column.total)
    ∷ ("amount", Column.total)
    ∷ ("montant", Column.total)
    ∷ []

abbrev alias_in : Text → List (String × Column) → Option Column
alias_in key [] = none
alias_in key ((name, column) ∷ aliases) =
    if text_eq key (codes name) then some column else alias_in key aliases

-- `toLowerCase().replace(/[^a-z]/g, '')`: besides the capitals, two characters have a lower case
-- with a plain letter, the Kelvin sign and the dotted capital I.
unfoldable pub letters : Text → Text
letters [] = []
letters (c ∷ t) =
    let rest = letters t in
    if leb b'a' c && leb c b'z'
    then c ∷ rest
    else if leb b'A' c && leb c b'Z'
    then (c + 32) ∷ rest
    else if c == 0x212a
    then b'k' ∷ rest
    else if c == 0x130
    then b'i' ∷ rest
    else rest

unfoldable pub column_named : Text → Option Column
unfolding letters trim
column_named header = alias_in (letters (trim header)) col_aliases

abbrev is_column : Column → Option Column → Bool
is_column column none = false
is_column column (some c) = same_column column c

-- The first header of a column wins.
unfoldable pub index_of : Column → ℕ → List Text → Option ℕ
unfolding column_named
index_of column i [] = none
index_of column i (h ∷ headers) =
    let rest = index_of column (i + 1) headers in
    if is_column column (column_named h) then some i else rest

pub record ColMap : Type 0 where
  pub customer : ℕ
  pub phone : ℕ
  pub item : ℕ
  pub quantity : ℕ
  pub total : ℕ

-- `mapColumns`: no map where a column is missing.
unfoldable pub map_columns : List Text → Option ColMap
unfolding index_of
map_columns headers =
    do_all (at Column.customer) (at Column.phone) (at Column.item) (at Column.quantity)
      (at Column.total)
  where
    at : Column → Option ℕ
    at column = index_of column 0 headers

    do_all : Option ℕ → Option ℕ → Option ℕ → Option ℕ → Option ℕ → Option ColMap
    do_all (some c) (some p) (some i) (some q) (some t) =
        some (record { customer = c; phone = p; item = i; quantity = q; total = t })
    do_all _ _ _ _ _ = none
