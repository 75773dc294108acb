-- ===== src/Billing.antt =====
-- Plans and payments: backend/src/admin/plans.ts, backend/src/billing/billing.rules.ts,
-- billing.service.ts and payment-provider.ts. Prices are in TND.
pub mod Rules
pub mod Subscribe
use ordely.Common.{
  ℕ, ◌+◌, String, Bool, true, false, not, ◌&&◌, Option, none, some, List, [], ◌∷◌, ◌++◌,
  if◌then◌else◌, str_eq, ltb, ◌==◌, holds, truthy, is_set, ◌orelse◌, Exec, Result, ok, err, demand,
  refuse, modify, pure, throw, gets, ◌>>=◌, ◌>>◌, unauthorized, service_unavailable, bad_request,
  payment_required, find, update,
}
use ordely.Store.{Boutique}

pub record Plan : Type 0 where
  pub code : String
  pub price : ℕ
  pub quota : ℕ

abbrev pub free : Plan
free = record { code = "free"; price = 0; quota = 500 }

abbrev pub starter : Plan
starter = record { code = "starter"; price = 79; quota = 1500 }

abbrev pub growth : Plan
growth = record { code = "growth"; price = 199; quota = 5000 }

abbrev pub pro : Plan
pro = record { code = "pro"; price = 449; quota = 15000 }

-- `PLANS.find((p) => p.code === code) ?? PLANS[0]`
unfoldable pub plan_of : Option String → Plan
plan_of code =
    if holds code "free"
    then free
    else if holds code "starter"
    then starter
    else if holds code "growth"
    then growth
    else if holds code "pro"
    then pro
    else free

unfoldable pub recommended_plan : Option String → Plan
unfolding plan_of
recommended_plan volume =
    let v = volume orelse "" in
    plan_of (
      some (
        if str_eq v "20_50"
        then "starter"
        else if str_eq v "50_100"
        then "growth"
        else if str_eq v "100_300"
        then "pro"
        else if str_eq v "gt300"
        then "pro"
        else "free"))

unfoldable pub current_plan : Boutique → Plan
unfolding plan_of
current_plan shop =
    if is_set (truthy shop.plan) && is_set shop.plan_started_at && not (is_set shop.churned_at)
    then plan_of shop.plan
    else free

pub data ChargeStatus : Type 0 where
  succeeded failed : ChargeStatus

pub record ChargeResult : Type 0 where
  pub status : ChargeStatus
  pub reference : String
  pub card_brand : Option String
  pub card_last4 : Option String
  pub failure_reason : Option String

pub record ChargeRequest : Type 0 where
  pub amount : ℕ
  pub token : String

-- A gateway: its name, and what it answers to a charge. It may throw.
pub record PaymentProvider : Type 0 where
  pub name : String
  pub charge : ChargeRequest → Result ChargeResult

abbrev card : Bool → String → String → Option String → String → ChargeResult
card passes brand last4 reason reference = record {
  status = if passes then succeeded else failed;
  reference = reference;
  card_brand = some brand;
  card_last4 = some last4;
  failure_reason = reason;
}

-- TEST_TOKENS, and the simulated gateway over the reference that `randomUUID` gives.
unfoldable pub simulated_charge : String → ChargeRequest → Result ChargeResult
simulated_charge reference request =
    if str_eq request.token "tok_test_visa"
    then ok (card true "Visa" "4242" none reference)
    else if str_eq request.token "tok_test_mastercard"
    then ok (card true "Mastercard" "4444" none reference)
    else if str_eq request.token "tok_test_declined"
    then ok (card false "Visa" "0002" (some "card_declined") reference)
    else if str_eq request.token "tok_test_insufficient_funds"
    then ok (card false "Visa" "9995" (some "insufficient_funds") reference)
    else err bad_request

abbrev pub simulated : String → PaymentProvider
simulated reference = record { name = "simulated"; charge = simulated_charge reference }

-- `resolveProvider`: PAYMENTS_PROVIDER (trimmed) and NODE_ENV pick the gateway.
unfoldable pub resolve_provider : Option String → Option String → String → Option PaymentProvider
unfolding simulated_charge
resolve_provider name environment reference =
    if holds (truthy name) "simulated"
    then if holds environment "production" then none else some (simulated reference)
    else none

pub record Payment : Type 0 where
  pub boutique_id : ℕ
  pub plan : String
  pub amount : ℕ
  pub provider : String
  pub status : ChargeStatus
  pub reference : String
  pub card_brand : Option String
  pub card_last4 : Option String
  pub failure_reason : Option String

-- The tables that billing reads and writes.
pub record Ledger : Type 0 where
  pub boutiques : List Boutique
  pub payments : List Payment

pub record SubscribeDto : Type 0 where
  pub plan : String
  pub payment_token : Option String

abbrev pub with_id : ℕ → Boutique → Bool
with_id id b = b.id == id

abbrev pub payment_record : ℕ → Plan → String → ChargeResult → Payment
payment_record boutique_id plan provider charge = record {
  boutique_id = boutique_id;
  plan = plan.code;
  amount = plan.price;
  provider = provider;
  status = charge.status;
  reference = charge.reference;
  card_brand = charge.card_brand;
  card_last4 = charge.card_last4;
  failure_reason = charge.failure_reason;
}

abbrev pub set_plan : Plan → ℕ → Boutique → Boutique
set_plan plan now b = record b {
  plan = some plan.code;
  plan_started_at = some now;
  churned_at = none;
}

abbrev add_payment : Payment → Ledger → Ledger
add_payment p l = record l { payments = l.payments ++ p ∷ [] }

abbrev write_plan : ℕ → Plan → ℕ → Ledger → Ledger
write_plan boutique_id plan now l = record l {
  boutiques = update (with_id boutique_id) (set_plan plan now) l.boutiques;
}

abbrev set_churned : ℕ → ℕ → Ledger → Ledger
set_churned boutique_id now l = record l {
  boutiques = update (with_id boutique_id) (λ b. record b { churned_at = some now }) l.boutiques;
}

-- The answer: the plan, and the payment that was made for it.
pub record Subscription : Type 0 where
  pub plan : String
  pub payment : Option Payment

-- Leaving a running paid plan is a cancellation.
abbrev pub subscribe_free : ℕ → ℕ → Boutique → Plan → Exec Ledger Subscription
subscribe_free now boutique_id shop plan l = (
  ok (record { plan = plan.code; payment = none }),
  if ltb 0 (current_plan shop).price then set_churned boutique_id now l else l,
)

abbrev pub settle_charge : ℕ → ℕ → Plan → Payment → Exec Ledger Subscription
settle_charge now boutique_id plan payment l = elim payment.status [
  | succeeded ↦ (
    ok (record { plan = plan.code; payment = some payment }),
    write_plan boutique_id plan now (add_payment payment l),
  )
  | failed ↦ (err payment_required, add_payment payment l)
]

unfoldable pub subscribe_paid :
    Option PaymentProvider → ℕ → ℕ → Plan → Option String → Exec Ledger Subscription
subscribe_paid provider now boutique_id plan token = do
  gateway ← demand service_unavailable (λ l. provider)
  card_token ← demand bad_request (λ l. truthy token)
  charge ← λ l. (gateway.charge (record { amount = plan.price; token = card_token }), l)
  settle_charge now boutique_id plan (payment_record boutique_id plan gateway.name charge)

abbrev subscribe_to :
    Option PaymentProvider → ℕ → ℕ → SubscribeDto → Boutique → Plan → Exec Ledger Subscription
subscribe_to provider now boutique_id dto shop plan =
    if plan.price == 0
    then subscribe_free now boutique_id shop plan
    else subscribe_paid provider now boutique_id plan dto.payment_token

unfoldable pub subscribe : Option PaymentProvider → ℕ → ℕ → SubscribeDto → Exec Ledger Subscription
subscribe provider now boutique_id dto = do
  shop ← demand unauthorized (λ l. find (with_id boutique_id) l.boutiques)
  subscribe_to provider now boutique_id dto shop (plan_of (some dto.plan))
