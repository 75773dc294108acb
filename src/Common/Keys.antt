-- ===== src/Common/Keys.antt =====
-- A unique column of a table: at most one row has a given value.
use Prim.Native.Nat.{ℕ, ◌+◌, ◌≤◌, ◌<◌}
use mathlib.Core.Path.{◌≡◌, refl}
use mathlib.Core.Logic.{inl, inr}
use mathlib.Core.Bool.{Bool, true, false, not, ◌&&◌}
use mathlib.Core.Option.{none, some}
use mathlib.Core.List.{List, [], ◌∷◌, ◌++◌}
use native.Mathlib.Omega.{arith}
use ordely.Common.Lists.{All, any}
use ordely.Common.Tests.{Bool-cases, ◌==◌}
use ordely.Common.Table.{find, update, count, find-count, count-append}

module _ {A : Type 0} where
  pub find_of_count : (q : A → Bool) (rows : List A) → count q rows ≡ 0 → find q rows ≡ none
  unfolding find count
  find_of_count q [] h = refl
  find_of_count q (x ∷ rows) h = ground (arith, find_of_count q rows)

  pub count_of_any : (q : A → Bool) (rows : List A) → any q rows ≡ false → count q rows ≡ 0
  unfolding count
  count_of_any q [] h = refl
  count_of_any q (x ∷ rows) h = ground (arith, count_of_any q rows)

  -- Rows that an update takes out of a query are the only ones that the query loses.
  pub count-update-minus :
      (q p : A → Bool) (f : A → A) (rows : List A)
      → ((r : A) → p r ≡ true → q (f r) ≡ false)
      → count q (update p f rows) ≡ count (λ r. q r && not (p r)) rows
  unfolding count update
  count-update-minus q p f [] k = refl
  count-update-minus q p f (r ∷ rows) k = ground (arith, k r, count-update-minus q p f rows k)

  -- The rows that an update writes and those that a query had besides are all that it can have.
  pub count-update-split :
      (q p : A → Bool) (f : A → A) (rows : List A)
      → count q (update p f rows) ≤ count (λ r. q r && not (p r)) rows + count p rows
  unfolding count update
  count-update-split q p f [] = omega arith
  count-update-split q p f (r ∷ rows) = ground (arith, count-update-split q p f rows)

  -- A link that an update takes off its row is on no row afterwards.
  pub find-update-none :
      (q p : A → Bool) (f : A → A) (rows : List A) {r : A}
      → count q rows ≤ 1
      → find q rows ≡ some r
      → p r ≡ true
      → ((x : A) → p x ≡ true → q (f x) ≡ false)
      → find q (update p f rows) ≡ none
  find-update-none q p f rows {r} one found written k = find_of_count q (update p f rows) (
      ground (
        arith,
        count-update-minus q p f rows k,
        find-count q (λ x. not (p x)) rows {r = r} found one,
      ))

  -- An update that writes a value into a unique column, where no other row has it.
  pub update-Unique :
      (q p : A → Bool) (f : A → A) (rows : List A)
      → count p rows ≤ 1
      → any (λ r. q r && not (p r)) rows ≡ false
      → count q (update p f rows) ≤ 1
  update-Unique q p f rows one none_other =
      ground (arith, count-update-split q p f rows, count_of_any _ rows none_other)

  -- A new row whose value no row has.
  pub append-Unique :
      (q : A → Bool) (rows : List A) (r : A)
      → count q rows ≤ 1
      → (q r ≡ true → count q rows ≡ 0)
      → count q (rows ++ r ∷ []) ≤ 1
  unfolding count
  append-Unique q rows r one new = ground (arith, count-append q rows (r ∷ []))

  find-counted :
      (q k : A → Bool) (rows : List A) {r : A}
      → find q rows ≡ some r
      → k r ≡ true
      → 1 ≤ count k rows
  unfolding find count
  find-counted q k [] found h = cc
  find-counted q k (x ∷ rows) {r} found h = elim (Bool-cases (q x)) [
    | inl e ↦ let same : x ≡ r = ground arith in ground (arith, same)
    | inr e ↦ ground (arith, find-counted q k rows {r = r})
  ]

  -- The row that one query finds is the row that a unique column of it finds.
  pub find-key :
      (q k : A → Bool) (rows : List A) {r : A}
      → find q rows ≡ some r
      → k r ≡ true
      → count k rows ≤ 1
      → find k rows ≡ some r
  unfolding find count
  find-key q k [] found h one = cc
  find-key q k (x ∷ rows) {r} found h one = elim (Bool-cases (q x)) [
    | inl e ↦ let same : x ≡ r = ground arith in ground (arith, same)
    | inr e ↦ ground (arith, find-counted q k rows {r = r}, find-key q k rows {r = r})
  ]

  -- A row that is added is found where no row before it is.
  pub find-append :
      (q : A → Bool) (rows : List A) (r : A)
      → count q rows ≡ 0
      → q r ≡ true
      → find q (rows ++ r ∷ []) ≡ some r
  unfolding find count
  find-append q [] r none_before h = rw h refl
  find-append q (x ∷ rows) r none_before h = ground (arith, find-append q rows r)

  -- An update that takes no row out of a query does not lower its count.
  pub count-update-ge :
      (q p : A → Bool) (f : A → A) (rows : List A)
      → ((r : A) → p r ≡ true → q r ≡ true → q (f r) ≡ true)
      → count q rows ≤ count q (update p f rows)
  unfolding count update
  count-update-ge q p f [] k = omega arith
  count-update-ge q p f (r ∷ rows) k = ground (arith, k r, count-update-ge q p f rows k)

-- A column that numbers the rows, below the next number.
module _ {A : Type 0} (number : A → ℕ) where
  pub none_below :
      (rows : List A) (next : ℕ)
      → All (λ r. number r < next) rows
      → (n : ℕ) → next ≤ n
      → count (λ r. number r == n) rows ≡ 0
  unfolding count
  none_below [] next a n h = refl
  none_below (r ∷ rows) next (lt, a) n h = ground (arith, none_below rows next a n h)

  pub append_below :
      (rows : List A) (next : ℕ) (r : A)
      → number r ≡ next
      → All (λ r. number r < next) rows
      → All (λ r. number r < next + 1) (rows ++ r ∷ [])
  append_below [] next r e a = (omega arith, tt)
  append_below (s ∷ rows) next r e (lt, a) = (omega arith, append_below rows next r e a)
