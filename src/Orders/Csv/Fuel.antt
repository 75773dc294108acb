-- ===== src/Orders/Csv/Fuel.antt =====
-- The loop of `parseCsvLine` (backend/src/orders/orders.service.ts) ends: each round takes at least
-- one character.
use ordely.Common.{
  ℕ, zero, suc, ◌≤◌, ◌<◌, ◌≡◌, refl, ap, some, [], ◌∷◌, arith, ◌==◌, length, Bool-cases,
  Option-cases, inl, inr,
}
use ordely.Common.Text.{Text}
use ordely.Orders.Csv.{read_quoted, read_plain, skip_comma, read_cells, parse_csv_line}

read_quoted-length : (t : Text) → length (read_quoted t).1 ≤ length t
unfolding read_quoted
read_quoted-length [] = omega arith
read_quoted-length (c ∷ []) = ground arith
read_quoted-length (c ∷ d ∷ t) = ground (arith, read_quoted-length t, read_quoted-length (d ∷ t))

skip_comma-length : (t : Text) → length (skip_comma t) ≤ length t
skip_comma-length [] = omega arith
skip_comma-length (c ∷ t) = ground arith

read_plain-length : (t rest : Text) → (read_plain t).1 ≡ some rest → length rest < length t
unfolding read_plain
read_plain-length [] rest h = cc
read_plain-length (c ∷ t) rest h = ground (arith, read_plain-length t rest)

read_cells-fuel :
    (fuel more : ℕ) (t : Text)
    → length t < fuel
    → length t < more
    → read_cells fuel t ≡ read_cells more t
unfolding read_cells
read_cells-fuel zero more t h k = absurd (omega arith)
read_cells-fuel (suc fuel) zero t h k = absurd (omega arith)
read_cells-fuel (suc fuel) (suc more) [] h k = refl
read_cells-fuel (suc fuel) (suc more) (c ∷ t) h k = elim (Bool-cases (c == b'"')) [
  | inl quote ↦ rw quote (
      ap (λ l. (read_quoted t).0 ∷ l)
        (read_cells-fuel fuel more (skip_comma (read_quoted t).1) (shorter fuel h)
          (shorter more k)))
  | inr plain ↦ elim (Option-cases (read_plain (c ∷ t)).1) [
    | inl over ↦ rw (plain, over) refl
    | inr (rest, comma) ↦
        rw (plain, comma)
          (ap (λ l. (read_plain (c ∷ t)).0 ∷ l)
            (read_cells-fuel fuel more rest (omega (arith, read_plain-length (c ∷ t) rest comma))
              (omega (arith, read_plain-length (c ∷ t) rest comma))))
  ]
]
  where
    shorter : (n : ℕ) → suc (length t) < suc n → length (skip_comma (read_quoted t).1) < n
    shorter n h = omega (arith, skip_comma-length (read_quoted t).1, read_quoted-length t)

-- A line is read whole: any number of rounds above its length reads the same cells, so that the
-- loop ends within one round more than the line has characters.
pub read_cells-eq-parse_csv_line :
    (fuel : ℕ) (line : Text) → length line < fuel → read_cells fuel line ≡ parse_csv_line line
unfolding parse_csv_line
read_cells-eq-parse_csv_line fuel line h =
    read_cells-fuel fuel (suc (suc (length line))) line h (omega arith)
