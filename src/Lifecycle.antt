-- ===== src/Lifecycle.antt =====
-- The life of an order as the services promise it, with no calls in sight: the specification that
-- the steps of System refine.
use ordely.Common.{
  ℕ, ◌≡◌, refl, ◌∙◌, subst, Bool, true, Option, some, List, [], ◌∷◌, ap, arith, ◌==◌, find, update,
  Bool-cases, inl, inr,
}
use ordely.Store.{OrderStatus, Order, has_status, order_pending}

-- What may happen to an order: its calls settle a pending one, and a review reopens one that could
-- not be reached.
pub data Moves : OrderStatus → OrderStatus → Type 0 where
  confirm : Moves OrderStatus.pending OrderStatus.confirmed
  cancel : Moves OrderStatus.pending OrderStatus.cancelled
  give_up : Moves OrderStatus.pending OrderStatus.unreachable
  reopen : Moves OrderStatus.unreachable OrderStatus.pending

pub data Life : OrderStatus → OrderStatus → Type 0 where
  same : (s : OrderStatus) → Life s s
  then_on : (s t u : OrderStatus) → Moves s t → Life t u → Life s u

pub Life-trans : (s t u : OrderStatus) → Life s t → Life t u → Life s u
Life-trans s t u (Life.same a) m = m
Life-trans s t u (Life.then_on a b c m l) k = Life.then_on s b u m (Life-trans b t u l k)

-- The table of orders while no row comes or goes: each row keeps its place and its columns but its
-- status, which moves along its life.
pub data Evolves : List Order → List Order → Type 0 where
  empty : Evolves [] []
  kept :
      (o o' : Order) (before after : List Order)
      → o' ≡ has_status o'.status o
      → Life o.status o'.status
      → Evolves before after
      → Evolves (o ∷ before) (o' ∷ after)

pub Evolves-refl : (rows : List Order) → Evolves rows rows
Evolves-refl [] = Evolves.empty
Evolves-refl (o ∷ rows) = Evolves.kept o o rows rows refl (Life.same o.status) (Evolves-refl rows)

pub Evolves-trans : (a b c : List Order) → Evolves a b → Evolves b c → Evolves a c
Evolves-trans a b c Evolves.empty f = f
Evolves-trans a b c (Evolves.kept o o' before after h l e) (Evolves.kept _ o'' _ later k m f) =
    Evolves.kept o o'' before later (k ∙ ap (has_status o''.status) h)
      (Life-trans o.status o'.status o''.status l m) (Evolves-trans before after later e f)

-- An update of statuses that are moves.
pub Evolves-update :
    (p : Order → Bool) (s : OrderStatus) (rows : List Order)
    → ((o : Order) → p o ≡ true → Moves o.status s)
    → Evolves rows (update p (has_status s) rows)
unfolding update
Evolves-update p s [] k = Evolves.empty
Evolves-update p s (o ∷ rows) k = elim (Bool-cases (p o)) [
  | inl e ↦ rw e (
      Evolves.kept o (has_status s o) rows (update p (has_status s) rows) refl
        (Life.then_on o.status s s (k o e) (Life.same s)) (Evolves-update p s rows k))
  | inr e ↦ rw e (
      Evolves.kept o o rows (update p (has_status s) rows) refl (Life.same o.status)
        (Evolves-update p s rows k))
]

-- An order that is there lives on: it is found under its id, with its columns, further along its
-- life.
abbrev pub LivesOn : Order → Option Order → Type 0
LivesOn o found =
    (o' : Order) × (found ≡ some o') × (o' ≡ has_status o'.status o) × Life o.status o'.status

pub LivesOn-self : (o : Order) (found : Option Order) → found ≡ some o → LivesOn o found
LivesOn-self o found e = (o, e, refl, Life.same o.status)

pub LivesOn-find :
    (id : ℕ) (before after : List Order) (o : Order)
    → Evolves before after
    → find (λ x. x.id == id) before ≡ some o
    → LivesOn o (find (λ x. x.id == id) after)
unfolding find
LivesOn-find id before after o Evolves.empty e = cc
LivesOn-find id before after o (Evolves.kept x x' rows rows' h l f) e =
    let same_id : x'.id ≡ x.id = ap (λ r. r.id) h in
    elim (Bool-cases (x.id == id)) [
      | inl here ↦
          let is_o : x ≡ o = ground arith in
          subst (λ r. LivesOn r (find (λ r. r.id == id) (x' ∷ rows'))) is_o
            (x', (rw (same_id, here) refl), h, l)
      | inr elsewhere ↦ rw (same_id, elsewhere) (LivesOn-find id rows rows' o f (rw elsewhere at e))
    ]

-- A pending order may settle in three ways, one of which is to stay.
pub Moves-settled : (o : Order) → order_pending o.status ≡ true → o.status ≡ OrderStatus.pending
Moves-settled o h = settled o.status h
  where
    settled : (s : OrderStatus) → order_pending s ≡ true → s ≡ OrderStatus.pending
    settled OrderStatus.pending h = refl
    settled OrderStatus.confirmed h = cc
    settled OrderStatus.cancelled h = cc
    settled OrderStatus.unreachable h = cc

-- A confirmed order stays confirmed for good.
pub Life-of-confirmed : (s : OrderStatus) → Life OrderStatus.confirmed s → s ≡ OrderStatus.confirmed
Life-of-confirmed s (Life.same a) = refl
Life-of-confirmed s (Life.then_on _ t _ m l) = elim m [ ]

pub Life-of-cancelled : (s : OrderStatus) → Life OrderStatus.cancelled s → s ≡ OrderStatus.cancelled
Life-of-cancelled s (Life.same a) = refl
Life-of-cancelled s (Life.then_on _ t _ m l) = elim m [ ]
