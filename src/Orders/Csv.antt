-- ===== src/Orders/Csv.antt =====
-- The CSV lines of backend/src/common/csv.ts (`csvCell`, `toCsv`) and of `parseCsvLine` in
-- backend/src/orders/orders.service.ts.
pub mod Fuel
pub mod Lines
use ordely.Common.{
  ℕ, zero, suc, ◌+◌, ◌≤◌, ◌<◌, ◌≡◌, refl, ap, ◌∙◌, Bool, true, false, not, ◌&&◌, ◌||◌, Option, none,
  some, List, [], ◌∷◌, ◌++◌, arith, if◌then◌else◌, ◌==◌, any, length, Bool-cases, inl, inr,
}
use ordely.Common.Text.{Text}

-- `/[",\n\r]/`
abbrev pub needs_quotes : Text → Bool
needs_quotes t = any (λ c. c == b'"' || c == b',' || c == 10 || c == 13) t

-- `/^[=+\-@\t\r]/`
abbrev pub runs_as_formula : Text → Bool
runs_as_formula [] = false
runs_as_formula (c ∷ t) = c == b'=' || c == b'+' || c == b'-' || c == b'@' || c == 9 || c == 13

unfoldable pub double_quotes : Text → Text
double_quotes [] = []
double_quotes (c ∷ t) =
    let rest = double_quotes t in if c == b'"' then b'"' ∷ b'"' ∷ rest else c ∷ rest

abbrev pub neutralised : Text → Text
neutralised t = if runs_as_formula t then b'\'' ∷ t else t

abbrev pub quoted_cell : Text → Text
quoted_cell t = b'"' ∷ double_quotes t ++ b'"' ∷ []

-- The cell of a text.
unfoldable pub csv_cell : Text → Text
unfolding double_quotes
csv_cell t = let s = neutralised t in if needs_quotes s then quoted_cell s else s

-- `r.map(csvCell).join(',')`
unfoldable pub csv_line : List Text → Text
unfolding csv_cell
csv_line [] = []
csv_line (t ∷ []) = csv_cell t
csv_line (t ∷ u ∷ row) = csv_cell t ++ b',' ∷ csv_line (u ∷ row)

-- The loop over a quoted field: its value, and the text after the closing quote.
unfoldable pub read_quoted : Text → Text × Text
read_quoted [] = ([], [])
read_quoted (c ∷ []) = if c == b'"' then ([], []) else (c ∷ [], [])
read_quoted (c ∷ d ∷ t) =
    let escaped = read_quoted t in
    let plain = read_quoted (d ∷ t) in
    if c == b'"'
    then if d == b'"' then (b'"' ∷ escaped.0, escaped.1) else ([], d ∷ t)
    else (c ∷ plain.0, plain.1)

abbrev pub skip_comma : Text → Text
skip_comma [] = []
skip_comma (c ∷ t) = if c == b',' then t else c ∷ t

-- `line.indexOf(',', i)`: the field before the comma, and the text after it.
unfoldable pub read_plain : Text → Text × Option Text
read_plain [] = ([], none)
read_plain (c ∷ t) =
    let rest = read_plain t in if c == b',' then ([], some t) else (c ∷ rest.0, rest.1)

abbrev pub go_on : Text → Option Text → (Text → List Text) → List Text
go_on v none rest = v ∷ []
go_on v (some t) rest = v ∷ rest t

-- The loop over a line, from the text at `i`. Each round takes a character or ends the loop.
unfoldable pub read_cells : ℕ → Text → List Text
unfolding read_quoted read_plain
read_cells zero t = []
read_cells (suc fuel) [] = [] ∷ []
read_cells (suc fuel) (c ∷ t) =
    let field = read_quoted t in
    let after_quoted = read_cells fuel (skip_comma field.1) in
    let plain = read_plain (c ∷ t) in
    if c == b'"' then field.0 ∷ after_quoted else go_on plain.0 plain.1 (read_cells fuel)

unfoldable pub parse_csv_line : Text → List Text
unfolding read_cells
parse_csv_line line = read_cells (suc (suc (length line))) line
