-- ===== src/Calls/Service/Highest.antt =====
-- The highest attempt of an order, and the orders once one of them waits again, as the retry of
-- calls.service.ts uses them.
use ordely.Common.{
  select, any, ap, Bool, ℕ, ◌+◌, ◌≤◌, ◌≡◌, subst, true, false, some, List, [], ◌∷◌, arith,
  if◌then◌else◌, ltb, update, inl, inr, All, find, count, ◌==◌, ◌&&◌, ◌⊎◌, refl, ◌∙◌, Bool-cases,
}
use ordely.Store.{OrderStatus, Order, Call, has_status}
use ordely.Calls.Service.{max_attempt, last_attempt, reopens}

-- A number among the attempts of calls, and the highest of them.
abbrev pub IsAmong : ℕ → List Call → Type 0
IsAmong n [] = ⊥
IsAmong n (c ∷ calls) = (n ≡ c.attempt) ⊎ IsAmong n calls

abbrev pub IsHighest : ℕ → List Call → Type 0
IsHighest n calls = IsAmong n calls × All (λ c. c.attempt ≤ n) calls

-- The orders once that order of that shop waits again, if it could not be reached.
abbrev pub waits_again : ℕ → ℕ → Order → OrderStatus → Order
waits_again boutique_id id o OrderStatus.unreachable =
    if o.id == id
    then (if o.boutique_id == boutique_id then record o { status = OrderStatus.pending } else o)
    else o
waits_again boutique_id id o _ = o

abbrev pub reopened : ℕ → ℕ → List Order → List Order
reopened boutique_id id [] = []
reopened boutique_id id (o ∷ orders) =
    waits_again boutique_id id o o.status ∷ reopened boutique_id id orders

waits_again-one :
    (boutique_id id : ℕ) (o : Order)
    → (if reopens boutique_id id o then has_status OrderStatus.pending o else o)
      ≡ waits_again boutique_id id o o.status
waits_again-one boutique_id id o = ground arith

pub update-reopened :
    (boutique_id id : ℕ) (orders : List Order)
    → update (reopens boutique_id id) (has_status OrderStatus.pending) orders
      ≡ reopened boutique_id id orders
unfolding update
update-reopened boutique_id id [] = refl
update-reopened boutique_id id (o ∷ orders) =
    rw (waits_again-one boutique_id id o, update-reopened boutique_id id orders)

max_attempt-bounds :
    (m : ℕ) (calls : List Call)
    → (m ≤ max_attempt m calls) × All (λ c. c.attempt ≤ max_attempt m calls) calls
unfolding max_attempt
max_attempt-bounds m [] = (omega arith, tt)
max_attempt-bounds m (c ∷ calls) =
    let (above, all_below) = max_attempt-bounds (if ltb m c.attempt then c.attempt else m) calls in
    (ground arith, (ground arith, all_below))

max_attempt-IsAmong :
    (m : ℕ) (calls : List Call) → (max_attempt m calls ≡ m) ⊎ IsAmong (max_attempt m calls) calls
unfolding max_attempt
max_attempt-IsAmong m [] = inl refl
max_attempt-IsAmong m (c ∷ calls) =
    let next = if ltb m c.attempt then c.attempt else m in
    elim (max_attempt-IsAmong next calls) [
      | inr among ↦ inr (inr among)
      | inl first ↦ elim (Bool-cases (ltb m c.attempt)) [
        | inl later ↦ let is_this : next ≡ c.attempt = rw later refl in inr (inl (first ∙ is_this))
        | inr earlier ↦ let is_m : next ≡ m = rw earlier refl in inl (first ∙ is_m)
      ]
    ]

-- The number is the highest attempt: it is one of them, and none is above it.
pub last_attempt-IsHighest :
    (calls : List Call) (last : ℕ) → last_attempt calls ≡ some last → IsHighest last calls
last_attempt-IsHighest [] last h = cc
last_attempt-IsHighest (c ∷ calls) last h =
    let same : max_attempt c.attempt calls ≡ last = cc in
    subst (λ n. IsHighest n (c ∷ calls)) same
      (
        elim (max_attempt-IsAmong c.attempt calls) [
          | inl first ↦ inl first
          | inr among ↦ inr among
        ],
        max_attempt-bounds c.attempt calls,
      )

among-le : (a b : ℕ) (calls : List Call) → IsAmong a calls → All (λ c. c.attempt ≤ b) calls → a ≤ b
among-le a b [] among all_below = absurd among
among-le a b (c ∷ calls) (inl first) (below, all_below) = omega arith
among-le a b (c ∷ calls) (inr among) (below, all_below) = among-le a b calls among all_below

pub last_attempt_of_IsHighest :
    (calls : List Call) (last : ℕ) → IsHighest last calls → last_attempt calls ≡ some last
last_attempt_of_IsHighest [] last (among, all_below) = absurd among
last_attempt_of_IsHighest (c ∷ calls) last (among, all_below) =
    let found = max_attempt c.attempt calls in
    let (found_among, found_above) = last_attempt-IsHighest (c ∷ calls) found refl in
    let below = among-le found last (c ∷ calls) found_among all_below in
    let above = among-le last found (c ∷ calls) among found_above in
    let same : found ≡ last = omega arith in ap some same

-- A number above the attempts of an order is not taken.
pub next_untaken :
    (order_id last : ℕ) (rows : List Call)
    → All (λ c. c.attempt ≤ last) (select (λ c. c.order_id == order_id) rows)
    → any (λ c. c.order_id == order_id && c.attempt == last + 1) rows ≡ false
unfolding select
next_untaken order_id last [] a = refl
next_untaken order_id last (c ∷ rows) a = elim (Bool-cases (c.order_id == order_id)) [
  | inl own ↦
      let (below, rest) : (c.attempt ≤ last)
          × All (λ c. c.attempt ≤ last) (select (λ c. c.order_id == order_id) rows) =
        rw own at a in
      let differs : (c.attempt == last + 1) ≡ false = ground arith in
      rw (own, differs) (next_untaken order_id last rows rest)
  | inr other ↦ rw other (next_untaken order_id last rows (rw other at a))
]

pub found_counted :
    (q p : Order → Bool) (rows : List Order) {o : Order}
    → find q rows ≡ some o
    → p o ≡ true
    → (count p rows == 0) ≡ false
unfolding find count
found_counted q p [] f h = cc
found_counted q p (x ∷ rows) {o} f h = elim (Bool-cases (q x)) [
  | inl here ↦ let same : x ≡ o = ground arith in rw (same, h) (ground arith)
  | inr elsewhere ↦ ground (arith, found_counted q p rows {o = o})
]
