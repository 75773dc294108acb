-- ===== src/Tests/Imports.antt =====
-- Examples of the theorems on imports of orders.
use ordely.Common.{
  ◌≡◌, refl, false, Option, some, [], ◌∷◌, ◌++◌, arith, result, final, ok, err, bad_request,
}
use ordely.Common.Text.{Text, codes}
use ordely.Store.{emit}
use ordely.Voice.Rules.{trim, trim_start, is_space}
use ordely.Orders.Csv.{parse_csv_line, read_cells, read_quoted, read_plain}
use ordely.Orders.Csv.Fuel.{read_cells-eq-parse_csv_line}
use ordely.Orders.Import.{
  map_columns, index_of, column_named, letters, lines_of_file, unix_lines, split, without_blank,
  parts_of,
}
use ordely.Orders.Import.Rows.{
  Total, ImportResult, RowError, import_csv, create_all, read_rows, is_phone, parse_int,
  digits_from, quantity_of, parse_items, total_quantity,
}
use ordely.Orders.Import.Rows.Imported.{IsImported, import_csv-IsImported}
use ordely.Tests.{fresh}

read_cells-eq-parse_csv_line_example :
    read_cells 8 (codes "a,\"b,c\"") ≡ parse_csv_line (codes "a,\"b,c\"")
read_cells-eq-parse_csv_line_example =
    read_cells-eq-parse_csv_line 8 (codes "a,\"b,c\"") (omega arith)

-- Every total is read as 59 dinars, each piece at half of it.
abbrev fifty_nine : Text → Option Total
fifty_nine t = some (record {
  is_negative = false;
  above_million = false;
  millimes = 59000;
  unit_price = λ n. 29500;
})

abbrev file : Text
file =
    codes "Client,Tel,Article,Qty,Price"
    ++ 13 ∷ 10 ∷ codes "Ali,22 333 444,Lamp,2,59"
    ++ 10 ∷ 10 ∷ codes "Sami,none,Lamp,0,59"

abbrev done : ImportResult
done = record {
  imported = 1;
  failed = 1;
  errors = (3, RowError.phone_invalid ∷ RowError.quantity_below ∷ []) ∷ [];
}

file_imported : result (import_csv fifty_nine 9000 1 file) fresh ≡ ok done
unfolding import_csv create_all read_rows emit map_columns index_of column_named letters
    lines_of_file unix_lines split without_blank parts_of trim trim_start is_space parse_csv_line
    read_cells read_quoted read_plain is_phone parse_int digits_from quantity_of parse_items
    total_quantity
file_imported = refl

import_csv-IsImported_example :
    IsImported fifty_nine 9000 1 file fresh done (final (import_csv fifty_nine 9000 1 file) fresh)
import_csv-IsImported_example =
    import_csv-IsImported fifty_nine 9000 1 file fresh {r = done} file_imported

-- A file with a header alone.
header_refused : result (import_csv fifty_nine 9000 1 (codes "Client,Tel")) fresh ≡ err bad_request
unfolding import_csv lines_of_file unix_lines split without_blank trim trim_start is_space
header_refused = refl
