-- ===== src/Common/Table.antt =====
-- A database table: the list of its rows. A query reads or writes the rows that its `where`
-- condition selects, as the data model in backend/prisma/schema.prisma is queried.
use Prim.Native.Nat.{ℕ, ◌+◌, ◌≤◌}
use mathlib.Core.Path.{◌≡◌, refl, subst}
use mathlib.Core.Logic.{inl, inr}
use mathlib.Core.Bool.{Bool, true, false, ◌&&◌}
use mathlib.Core.Option.{Option, none, some}
use mathlib.Core.List.{List, [], ◌∷◌, ◌++◌}
use native.Mathlib.Omega.{arith}
use ordely.Common.Lists.{All, any}
use ordely.Common.Tests.{if◌then◌else◌, Bool-cases}

module _ {A : Type 0} where
  -- `findFirst`, `findUnique`
  unfoldable pub find : (A → Bool) → List A → Option A
  find p [] = none
  find p (r ∷ rows) = if p r then some r else find p rows

  -- `findMany`
  unfoldable pub select : (A → Bool) → List A → List A
  select p [] = []
  select p (r ∷ rows) = if p r then r ∷ select p rows else select p rows

  -- `updateMany`: the rows
  unfoldable pub update : (A → Bool) → (A → A) → List A → List A
  update p f [] = []
  update p f (r ∷ rows) = (if p r then f r else r) ∷ update p f rows

  -- `updateMany`, `count`: the number of rows
  unfoldable pub count : (A → Bool) → List A → ℕ
  count p [] = 0
  count p (r ∷ rows) = (if p r then 1 else 0) + count p rows

  -- `deleteMany`: the rows
  unfoldable pub delete : (A → Bool) → List A → List A
  delete p [] = []
  delete p (r ∷ rows) = let rest = delete p rows in if p r then rest else r ∷ rest

module _ {A : Type 0} where
  pub find-holds : (p : A → Bool) (rows : List A) {r : A} → find p rows ≡ some r → p r ≡ true
  unfolding find
  find-holds p [] h = cc
  find-holds p (x ∷ rows) {r} h = ground (arith, find-holds p rows {r = r})

  -- What holds of every row holds of the row that a query finds.
  pub find-All :
      (P : A → Type 0) (p : A → Bool) (rows : List A) {r : A}
      → find p rows ≡ some r
      → All P rows
      → P r
  unfolding find
  find-All P p [] h a = cc
  find-All P p (x ∷ rows) {r} h (px, a) = elim (Bool-cases (p x)) [
    | inl e ↦ subst P (ground arith) px
    | inr e ↦ find-All P p rows (ground arith) a
  ]

  -- An update of rows keeps a property that the written rows have.
  pub update-All :
      (P : A → Type 0) (p : A → Bool) (f : A → A) (rows : List A)
      → ((r : A) → p r ≡ true → P r → P (f r))
      → All P rows
      → All P (update p f rows)
  unfolding update
  update-All P p f [] k a = tt
  update-All P p f (x ∷ rows) k (px, a) = elim (Bool-cases (p x)) [
    | inl e ↦ rw e (k x e px, update-All P p f rows k a)
    | inr e ↦ rw e (px, update-All P p f rows k a)
  ]

  -- Where no row is counted, the update changes nothing.
  pub update_of_count :
      (p : A → Bool) (f : A → A) (rows : List A) → count p rows ≡ 0 → update p f rows ≡ rows
  unfolding update count
  update_of_count p f [] h = refl
  update_of_count p f (x ∷ rows) h = ground (arith, update_of_count p f rows)

-- The row that an update leaves where a query looks: the update changes no column of the query.
abbrev pub written {ℓ} : {A : Type ℓ} → (A → Bool) → (A → A) → Option A → Option A
written p f none = none
written p f (some r) = some (if p r then f r else r)

module _ {A : Type 0} where
  pub find-update :
      (q p : A → Bool) (f : A → A) (rows : List A)
      → ((r : A) → q (f r) ≡ q r)
      → find q (update p f rows) ≡ written p f (find q rows)
  unfolding find update
  find-update q p f [] k = refl
  find-update q p f (r ∷ rows) k = ground (arith, k r, find-update q p f rows k)

  -- An update passes over a row that its condition does not select.
  pub find-update_other :
      (q p : A → Bool) (f : A → A) (rows : List A) {r : A}
      → ((x : A) → q (f x) ≡ q x)
      → find q rows ≡ some r
      → p r ≡ false
      → find q (update p f rows) ≡ some r
  find-update_other q p f rows {r} k h n = rw (find-update q p f rows k, h, n)

  count-and-zero :
      (q p : A → Bool) (rows : List A) → count q rows ≡ 0 → count (λ x. q x && p x) rows ≡ 0
  unfolding count
  count-and-zero q p [] h = refl
  count-and-zero q p (x ∷ rows) h = ground (arith, count-and-zero q p rows)

  -- Where a query has a row, a key has at most one: a condition on it holds as soon as it is
  -- counted once.
  pub find-count :
      (q p : A → Bool) (rows : List A) {r : A}
      → find q rows ≡ some r
      → count q rows ≤ 1
      → count (λ x. q x && p x) rows ≡ (if p r then 1 else 0)
  unfolding find count
  find-count q p [] h k = cc
  find-count q p (x ∷ rows) {r} h k = elim (Bool-cases (q x)) [
    | inl e ↦
        let same : x ≡ r = ground arith in
        rw (← same, e) (omega (arith, count-and-zero q p rows (ground arith)))
    | inr e ↦ rw e (ground (arith, find-count q p rows {r = r}))
  ]

module _ {A : Type 0} where
  pub count-append : (p : A → Bool) (xs ys : List A) → count p (xs ++ ys) ≡ count p xs + count p ys
  unfolding count
  count-append p [] ys = omega arith
  count-append p (x ∷ xs) ys = omega (arith, count-append p xs ys)

  -- An update that turns no row into one of the counted does not raise the count.
  pub count-update-le :
      (q p : A → Bool) (f : A → A) (rows : List A)
      → ((r : A) → p r ≡ true → q (f r) ≡ true → q r ≡ true)
      → count q (update p f rows) ≤ count q rows
  unfolding count update
  count-update-le q p f [] k = omega arith
  count-update-le q p f (r ∷ rows) k = ground (arith, k r, count-update-le q p f rows k)

  -- What no selected row satisfies is counted nowhere among the rows.
  pub count_of_select :
      (q p : A → Bool) (rows : List A)
      → any p (select q rows) ≡ false
      → count (λ r. q r && p r) rows ≡ 0
  unfolding count select
  count_of_select q p [] h = refl
  count_of_select q p (r ∷ rows) h = ground (arith, count_of_select q p rows)

  -- An update adds at most the rows that it selects to those that are counted.
  pub count-update-add :
      (q p : A → Bool) (f : A → A) (rows : List A)
      → count q (update p f rows) ≤ count q rows + count p rows
  unfolding count update
  count-update-add q p f [] = omega arith
  count-update-add q p f (r ∷ rows) = ground (arith, count-update-add q p f rows)

  -- A narrower test counts no more rows.
  pub count-le :
      (q p : A → Bool) (rows : List A)
      → ((r : A) → q r ≡ true → p r ≡ true)
      → count q rows ≤ count p rows
  unfolding count
  count-le q p [] k = omega arith
  count-le q p (r ∷ rows) k = ground (arith, k r, count-le q p rows k)
