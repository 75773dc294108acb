-- ===== src/Admin/Health.antt =====
-- How a merchant is doing: backend/src/admin/health.ts.
use ordely.Common.{
  ℕ, ◌+◌, ◌*◌, ◌≤◌, ◌<◌, ◌≡◌, refl, ◌↔◌, Bool, true, false, ◌&&◌, Option, none, some, arith, ltb,
  leb, ◌==◌, if◌then◌else◌,
}

pub data MerchantStatus : Type 0 where
  active : MerchantStatus
  new : MerchantStatus
  dormant : MerchantStatus
  churned : MerchantStatus

abbrev pub day_ms : ℕ
day_ms = 86400000

abbrev pub dormant_days : ℕ
dormant_days = 14

abbrev pub new_days : ℕ
new_days = 14

-- `Rate` stands for the floating point numbers that a confirmation rate is.
pub record HealthInput (Rate : Type 0) : Type 0 where
  pub signup_at : ℕ
  pub last_activity_at : Option ℕ
  pub churned_at : Option ℕ
  pub onboarded : Bool
  pub calls_14 : ℕ
  pub calls_prev_14 : ℕ
  pub confirmation_rate : Option Rate

-- The points for the last activity: whole days are compared, so `idle <= 7` is on milliseconds.
unfoldable pub recency : Option ℕ → ℕ → ℕ
recency none now = 0
recency (some t) now =
    if leb now (t + 7 * day_ms)
    then 40
    else if leb now (t + 14 * day_ms)
    then 25
    else if leb now (t + 30 * day_ms)
    then 10
    else 0

-- `ratio >= 0.7`, of two counts.
unfoldable pub momentum : ℕ → ℕ → ℕ
momentum calls prev =
    if ltb 0 calls && (prev == 0)
    then 20
    else if ltb 0 prev
    then if leb prev calls then 20 else if leb (7 * prev) (10 * calls) then 10 else 0
    else 0

-- `points r` is `Math.round(r * 30)`.
abbrev pub results {ℓ} : {Rate : Type ℓ} → (Rate → ℕ) → Option Rate → ℕ
results points none = 0
results points (some r) = points r

unfoldable pub health_score : {Rate : Type 0} → (Rate → ℕ) → HealthInput Rate → ℕ → ℕ
health_score points m now =
    recency m.last_activity_at now
    + results points m.confirmation_rate
    + momentum m.calls_14 m.calls_prev_14
    + (if m.onboarded then 10 else 0)

abbrev pub reached : Option ℕ → ℕ → Bool
reached none now = false
reached (some t) now = leb t now

abbrev pub quiet : Option ℕ → ℕ → Bool
quiet none now = true
quiet (some t) now = leb (t + dormant_days * day_ms) now

unfoldable pub merchant_status : {Rate : Type 0} → HealthInput Rate → ℕ → MerchantStatus
merchant_status m now =
    if reached m.churned_at now
    then MerchantStatus.churned
    else if ltb now (m.signup_at + new_days * day_ms)
    then MerchantStatus.new
    else if quiet m.last_activity_at now
    then MerchantStatus.dormant
    else MerchantStatus.active

recency-le : (o : Option ℕ) (now : ℕ) → recency o now ≤ 40
unfolding recency
recency-le none now = ground arith
recency-le (some t) now = ground arith

momentum-le : (c p : ℕ) → momentum c p ≤ 20
unfolding momentum
momentum-le c p = ground arith

setup-le : (b : Bool) → (if b then 10 else 0) ≤ 10
setup-le true = omega arith
setup-le false = omega arith

results-le :
    {Rate : Type 0} (points : Rate → ℕ)
    → ((r : Rate) → points r ≤ 30)
    → (o : Option Rate) → results points o ≤ 30
results-le points h none = omega arith
results-le points h (some r) = h r

recency-anti : (o : Option ℕ) {now later : ℕ} → now ≤ later → recency o later ≤ recency o now
unfolding recency
recency-anti none le = omega arith
recency-anti (some t) le = ground arith

-- A score is at most 100, for rates whose share of the points is at most 30.
pub health_score_bound :
    {Rate : Type 0} (points : Rate → ℕ) (m : HealthInput Rate) (now : ℕ)
    → ((r : Rate) → points r ≤ 30)
    → health_score points m now ≤ 100
unfolding health_score
health_score_bound points m now h =
    let a = recency-le m.last_activity_at now in
    let b = results-le points h m.confirmation_rate in
    let c = momentum-le m.calls_14 m.calls_prev_14 in let d = setup-le m.onboarded in omega arith

-- For the same merchant, a score never rises as time passes.
pub health_score_anti :
    {Rate : Type 0} (points : Rate → ℕ) (m : HealthInput Rate) {now later : ℕ}
    → now ≤ later
    → health_score points m later ≤ health_score points m now
unfolding health_score
health_score_anti points m le = let a = recency-anti m.last_activity_at le in omega arith

active_from :
    (left : Option ℕ) (signup : ℕ) (last : Option ℕ) (now : ℕ)
    → ((if reached left now
          then MerchantStatus.churned
          else if ltb now (signup + new_days * day_ms)
          then MerchantStatus.new
          else if quiet last now
          then MerchantStatus.dormant
          else MerchantStatus.active)
        ≡ MerchantStatus.active)
      ↔ ((reached left now ≡ false)
          × (signup + 14 * day_ms ≤ now)
          × ((t : ℕ) × (last ≡ some t) × (now < t + 14 * day_ms)))
active_from left signup none now =
    (λ e. absurd (ground arith), λ (_, _, (t, e, _)). absurd (ground arith))
active_from left signup (some t) now =
    (λ e. (ground arith, ground arith, (t, refl, ground arith)), λ (a, b, (u, e, c)). ground arith)

-- A merchant is active exactly when it has not left, signed up at least 14 days ago, and its last
-- activity is less than 14 days old.
pub merchant_status-eq-active_iff :
    {Rate : Type 0} (m : HealthInput Rate) (now : ℕ)
    → (merchant_status m now ≡ MerchantStatus.active) ↔ (
        (reached m.churned_at now ≡ false)
        × (m.signup_at + 14 * day_ms ≤ now)
        × ((t : ℕ) × (m.last_activity_at ≡ some t) × (now < t + 14 * day_ms)))
unfolding merchant_status
merchant_status-eq-active_iff m now = active_from m.churned_at m.signup_at m.last_activity_at now
