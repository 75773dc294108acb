-- ===== src/Voice/Rules/Decision.antt =====
-- What `decideOutcome` of voice.rules.ts does on every report.
use ordely.Common.{
  String, ◌^◌, ◌≤◌, ◌≡◌, ◌↔◌, refl, subst, Bool, true, false, ◌||◌, Option, none, some, arith,
  str_eq, eq_iff, holds,
}
use ordely.Common.Int.{ℤ, pos, negsuc, leb_ℤ}
use ordely.Voice.Rules.{
  one, Number, Report, is_confident, decide_outcome, confirmed, cancelled, no_answer,
}

-- The dispositions of a call that nobody answered, or that failed.
abbrev pub is_unanswered : String → Bool
is_unanswered d = str_eq d "no_answer" || str_eq d "rejected" || str_eq d "error"

-- The order of the numbers.
abbrev pub IsAtMost : ℤ → ℤ → Type 0
IsAtMost (pos a) (pos b) = a ≤ b
IsAtMost (pos a) (negsuc b) = false ≡ true
IsAtMost (negsuc a) (pos b) = true ≡ true
IsAtMost (negsuc a) (negsuc b) = b ≤ a

leb_ℤ-IsAtMost : (a b : ℤ) → (leb_ℤ a b ≡ true) ↔ IsAtMost a b
leb_ℤ-IsAtMost (pos a) (pos b) = ground arith
leb_ℤ-IsAtMost (pos a) (negsuc b) = ground arith
leb_ℤ-IsAtMost (negsuc a) (pos b) = ground arith
leb_ℤ-IsAtMost (negsuc a) (negsuc b) = ground arith

holds-eq-true : (o : Option String) (s : String) → holds o s ≡ true → o ≡ some s
holds-eq-true (some t) s h = ground (arith, eq_iff t s)
holds-eq-true _ s h = cc

holds-some : (s : String) → holds (some s) s ≡ true
holds-some s = (eq_iff s s).1 refl

pub unanswered_iff :
    (d : String)
    → (is_unanswered d ≡ false) ↔ ((¬ (d ≡ "no_answer")) × (¬ (d ≡ "rejected")) × (¬ (d ≡ "error")))
unanswered_iff d = ground (arith, eq_iff d "no_answer", eq_iff d "rejected", eq_iff d "error")

is_confident_iff :
    (confidence : Option Number) (min : Number)
    → (is_confident confidence min ≡ true)
      ↔ ((c : Number) × (confidence ≡ some c) × IsAtMost min c × IsAtMost c (pos (2 ^ 1074)))
unfolding one
is_confident_iff none min = (λ h. absurd cc, λ h. absurd cc)
is_confident_iff (some c) min = (
  λ h. (c, refl, (leb_ℤ-IsAtMost min c).0 (ground arith), (leb_ℤ-IsAtMost c one).0 (ground arith)),
  λ (d, same, low, high).
      let is_c : d ≡ c = ground arith in
      let low_enough : leb_ℤ min c ≡ true =
        (leb_ℤ-IsAtMost min c).1 (subst (IsAtMost min) is_c low) in
      let high_enough : leb_ℤ c one ≡ true =
        (leb_ℤ-IsAtMost c one).1 (subst (λ x. IsAtMost x one) is_c high) in
      rw (low_enough, high_enough) refl,
)

-- A call is read as confirmed exactly when its disposition is none of no_answer, rejected and error,
-- and the intent CONFIRMED was reported with a confidence, which is no lower than the threshold and
-- no higher than one.
pub decide_outcome-eq-confirmed_iff :
    (r : Report) (min : Number)
    → (decide_outcome r min ≡ confirmed) ↔ (
        ((¬ (r.disposition ≡ "no_answer"))
          × (¬ (r.disposition ≡ "rejected"))
          × (¬ (r.disposition ≡ "error")))
        × (r.intent ≡ some "CONFIRMED")
        × ((c : Number) × (r.confidence ≡ some c) × IsAtMost min c × IsAtMost c (pos (2 ^ 1074))))
unfolding decide_outcome
decide_outcome-eq-confirmed_iff r min =
    let (answered, unanswered) = unanswered_iff r.disposition in
    let (trusted, in_range) = is_confident_iff r.confidence min in
    let intent : (holds r.intent "CONFIRMED" ≡ true) → (r.intent ≡ some "CONFIRMED") =
      holds-eq-true r.intent "CONFIRMED" in
    let says : (decide_outcome r min ≡ confirmed) ↔ (
        (is_unanswered r.disposition ≡ false)
        × (is_confident r.confidence min ≡ true)
        × (holds r.intent "CONFIRMED" ≡ true)) =
      ground arith in
    (
      λ confirms.
          let (spoken, sure, intended) = says.0 confirms in
          (answered spoken, intent intended, trusted sure),
      λ (spoken, intended, sure).
          says.1 (unanswered spoken, in_range sure, rw intended (holds-some "CONFIRMED")),
    )

-- A call is read as cancelled exactly when it was answered and the intent CANCELLED was reported
-- with a confidence between the threshold and one.
pub decide_outcome-eq-cancelled_iff :
    (r : Report) (min : Number)
    → (decide_outcome r min ≡ cancelled) ↔ (
        (is_unanswered r.disposition ≡ false)
        × (is_confident r.confidence min ≡ true)
        × (holds r.intent "CANCELLED" ≡ true))
unfolding decide_outcome
decide_outcome-eq-cancelled_iff r min =
    ground (arith, holds-eq-true r.intent "CONFIRMED", holds-eq-true r.intent "CANCELLED")

-- A call counts as unanswered exactly for the dispositions no_answer, rejected and error, whatever
-- intent came with them.
pub decide_outcome-eq-no_answer_iff :
    (r : Report) (min : Number)
    → (decide_outcome r min ≡ no_answer) ↔ (is_unanswered r.disposition ≡ true)
unfolding decide_outcome
decide_outcome-eq-no_answer_iff r min = ground arith
