-- ===== src/Orders/Csv/Lines.antt =====
-- What `parseCsvLine` reads of a line that `csvCell` and `join(',')` wrote.
use mathlib.Core.List.{append_assoc}
use ordely.Common.{
  ℕ, zero, suc, ◌≤◌, ◌<◌, ◌≡◌, refl, ap, ◌∙◌, Bool, true, false, none, some, List, [], ◌∷◌, ◌++◌,
  map, arith, if◌then◌else◌, ◌==◌, length, Bool-cases, inl, inr, length-append, ==_iff,
}
use ordely.Common.Text.{Text}
use ordely.Orders.Csv.{
  needs_quotes, neutralised, double_quotes, csv_cell, csv_line, read_quoted, read_plain, skip_comma,
  read_cells, parse_csv_line,
}

-- The text after a closing quote: the line ends, or a comma follows.
abbrev ends_field : Text → Bool
ends_field [] = true
ends_field (c ∷ t) = c == b','

read_quoted_plain :
    (c : ℕ) (t : Text)
    → (c == b'"') ≡ false
    → read_quoted (c ∷ t) ≡ (c ∷ (read_quoted t).0, (read_quoted t).1)
unfolding read_quoted
read_quoted_plain c [] h = rw h
read_quoted_plain c (d ∷ t) h = rw h

read_quoted_escaped :
    (t : Text) → read_quoted (b'"' ∷ b'"' ∷ t) ≡ (b'"' ∷ (read_quoted t).0, (read_quoted t).1)
unfolding read_quoted
read_quoted_escaped t = refl

read_quoted-double_quotes :
    (t rest : Text)
    → ends_field rest ≡ true
    → read_quoted (double_quotes t ++ b'"' ∷ rest) ≡ (t, rest)
unfolding double_quotes
read_quoted-double_quotes [] [] h = unfold read_quoted in refl
read_quoted-double_quotes [] (d ∷ rest) h = unfold read_quoted in ground arith
read_quoted-double_quotes (c ∷ t) rest h = elim (Bool-cases (c == b'"')) [
  | inl quote ↦
      let same : c ≡ b'"' = (==_iff c b'"').0 quote in
      rw (
        quote,
        read_quoted_escaped (double_quotes t ++ b'"' ∷ rest),
        read_quoted-double_quotes t rest h,
        same,
      )
  | inr other ↦ rw (
    other,
    read_quoted_plain c (double_quotes t ++ b'"' ∷ rest) other,
    read_quoted-double_quotes t rest h,
  )
]

read_plain_comma :
    (t rest : Text) → needs_quotes t ≡ false → read_plain (t ++ b',' ∷ rest) ≡ (t, some rest)
unfolding read_plain
read_plain_comma [] rest h = refl
read_plain_comma (c ∷ t) rest h = ground (arith, read_plain_comma t rest)

read_plain_end : (t : Text) → needs_quotes t ≡ false → read_plain t ≡ (t, none)
unfolding read_plain
read_plain_end [] h = refl
read_plain_end (c ∷ t) h = ground (arith, read_plain_end t)

plain_cell :
    (fuel : ℕ) (t rest : Text)
    → needs_quotes t ≡ false
    → read_cells (suc fuel) (t ++ b',' ∷ rest) ≡ t ∷ read_cells fuel rest
unfolding read_cells
plain_cell fuel [] rest h = unfold read_plain in refl
plain_cell fuel (c ∷ t) rest h =
    let unquoted : (c == b'"') ≡ false = ground arith in
    rw (unquoted, read_plain_comma (c ∷ t) rest h)

last_plain_cell : (fuel : ℕ) (t : Text) → needs_quotes t ≡ false → read_cells (suc fuel) t ≡ t ∷ []
unfolding read_cells
last_plain_cell fuel [] h = refl
last_plain_cell fuel (c ∷ t) h =
    let unquoted : (c == b'"') ≡ false = ground arith in rw (unquoted, read_plain_end (c ∷ t) h)

quoted_field :
    (fuel : ℕ) (t rest : Text)
    → ends_field rest ≡ true
    → read_cells (suc fuel) (b'"' ∷ double_quotes t ++ b'"' ∷ rest)
      ≡ t ∷ read_cells fuel (skip_comma rest)
unfolding read_cells
quoted_field fuel t rest h = rw (read_quoted-double_quotes t rest h)

-- A cell before another one.
cell-comma :
    (fuel : ℕ) (t rest : Text)
    → read_cells (suc fuel) (csv_cell t ++ b',' ∷ rest) ≡ neutralised t ∷ read_cells fuel rest
unfolding csv_cell
cell-comma fuel t rest = elim (Bool-cases (needs_quotes (neutralised t))) [
  | inl special ↦
      rw special (rw append_assoc (quoted_field fuel (neutralised t) (b',' ∷ rest) refl))
  | inr plain ↦ rw plain (plain_cell fuel (neutralised t) rest plain)
]

-- What follows the last cell of a line: a quoted one is followed by an empty cell.
abbrev pub tail_cell : Text → List Text
tail_cell t = if needs_quotes (neutralised t) then [] ∷ [] else []

last_cell :
    (fuel : ℕ) (t : Text) → read_cells (suc (suc fuel)) (csv_cell t) ≡ neutralised t ∷ tail_cell t
unfolding csv_cell
last_cell fuel t = elim (Bool-cases (needs_quotes (neutralised t))) [
  | inl special ↦
      rw special (quoted_field (suc fuel) (neutralised t) [] refl ∙ unfold read_cells in refl)
  | inr plain ↦ rw plain (last_plain_cell (suc fuel) (neutralised t) plain)
]

abbrev pub after_last : Text → List Text → List Text
after_last t [] = tail_cell t
after_last t (u ∷ row) = after_last u row

read_cells-csv_line :
    (fuel : ℕ) (t : Text) (row : List Text)
    → suc (length row) < fuel
    → read_cells fuel (csv_line (t ∷ row)) ≡ map neutralised (t ∷ row) ++ after_last t row
unfolding csv_line
read_cells-csv_line zero t row h = absurd (omega arith)
read_cells-csv_line (suc zero) t row h = absurd (omega arith)
read_cells-csv_line (suc (suc fuel)) t [] h = last_cell fuel t
read_cells-csv_line (suc (suc fuel)) t (u ∷ row) h =
    cell-comma (suc fuel) t (csv_line (u ∷ row))
    ∙ ap (λ l. neutralised t ∷ l) (read_cells-csv_line (suc fuel) u row (omega arith))

length-csv_line : (t : Text) (row : List Text) → length row ≤ length (csv_line (t ∷ row))
unfolding csv_line
length-csv_line t [] = omega arith
length-csv_line t (u ∷ row) =
    omega (arith, length-csv_line u row, length-append (csv_cell t) (b',' ∷ csv_line (u ∷ row)))

-- A line written from one cell or more is read back as its cells, each marked with an apostrophe where it would run as a
-- formula; after a line whose last cell is quoted, an empty cell is read too.
pub parse_csv_line-csv_line :
    (t : Text) (row : List Text)
    → parse_csv_line (csv_line (t ∷ row)) ≡ map neutralised (t ∷ row) ++ after_last t row
unfolding parse_csv_line
parse_csv_line-csv_line t row =
    read_cells-csv_line (suc (suc (length (csv_line (t ∷ row))))) t row
      (omega (arith, length-csv_line t row))
