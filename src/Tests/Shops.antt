-- ===== src/Tests/Shops.antt =====
-- Examples of the theorems on billing, and on the windows of the back office's reports.
use ordely.Common.{
  str_eq, if◌then◌else◌, String, Option, ◌*◌, ℕ, ◌≤◌, ◌<◌, ◌≡◌, refl, none, some, [], ◌∷◌, arith,
  ok, err, result, find, payment_required,
}
use ordely.Common.Text.{codes}
use ordely.Store.{Boutique}
use ordely.Voice.Rules.{parse_hhmm}
use ordely.Billing.{
  plan_of, simulated, Ledger, Payment, SubscribeDto, Subscription, subscribe, subscribe_paid,
  succeeded, simulated_charge,
}
use ordely.Boutiques.{Shops, load, update_agent, AgentDto, next_onboarding_step, view, write}
use ordely.Admin.Period.{
  PeriodRange, PeriodQuery, IsPeriod, resolve_period, span_window, resolve_period-IsPeriod,
}
use ordely.Tests.{shop, eleven}

paid_plan : 0 < (plan_of (some "starter")).price
unfolding plan_of
paid_plan = omega arith

-- A shop that had cancelled its plan and comes back.
abbrev churned_shop : Boutique
churned_shop = record shop { churned_at = some 3000 }

abbrev ledger : Ledger
ledger = record { boutiques = churned_shop ∷ []; payments = [] }

abbrev declined : SubscribeDto
declined = record { plan = "pro"; payment_token = some "tok_test_declined" }

abbrev accepted : SubscribeDto
accepted = record { plan = "pro"; payment_token = some "tok_test_visa" }

is_declined :
    result (subscribe (some (simulated "ref")) eleven 1 declined) ledger ≡ err payment_required
unfolding subscribe subscribe_paid find plan_of simulated_charge
is_declined = refl

abbrev paid : Payment
paid = record {
  boutique_id = 1;
  plan = "pro";
  amount = 449;
  provider = "simulated";
  status = succeeded;
  reference = "ref";
  card_brand = some "Visa";
  card_last4 = some "4242";
  failure_reason = none;
}

abbrev subscribed : Subscription
subscribed = record { plan = "pro"; payment = some paid }

abbrev shops_of : Boutique → Shops
shops_of b = record { users = record { id = 4; boutique_id = 1 } ∷ []; boutiques = b ∷ [] }

loads_shop : load 4 (shops_of shop) ≡ (ok shop, shops_of shop)
unfolding load find
loads_shop = refl

shop_ready : 3 ≤ next_onboarding_step shop
unfolding next_onboarding_step
shop_ready = omega arith

abbrev hours_dto : AgentDto
hours_dto = record {
  call_languages = "ar-TN" ∷ [];
  call_start_time = codes "08:30";
  call_end_time = codes "12:00";
  confirmation_process = none;
}

abbrev with_hours : Boutique
with_hours = record shop {
  call_start_time = some (codes "08:30");
  call_end_time = some (codes "12:00");
}

updates_hours : result (update_agent 4 hours_dto) (shops_of shop) ≡ ok (view with_hours)
unfolding update_agent write load find parse_hhmm
updates_hours = refl

-- A week that is over, and the week before it.
abbrev week_query : PeriodQuery
week_query = record {
  range = some PeriodRange.custom;
  from = some "2026-01-01";
  to = some "2026-01-07";
}

abbrev starts : String → Option ℕ
starts day = if str_eq day "2026-01-01" then some 1767222000000 else some 1767740400000

week_resolved :
    resolve_period starts 1800000000000 week_query ≡ ok (span_window 1767222000000 1767826800000)
unfolding resolve_period
week_resolved = refl

late_starts : (day : String) (i : ℕ) → starts day ≡ some i → 366 * 86400000 ≤ i
late_starts day i e = ground arith

resolve_period-IsPeriod_example : IsPeriod 1800000000000 (span_window 1767222000000 1767826800000)
resolve_period-IsPeriod_example =
    resolve_period-IsPeriod starts 1800000000000 week_query
      (span_window 1767222000000 1767826800000) (omega arith) late_starts week_resolved
