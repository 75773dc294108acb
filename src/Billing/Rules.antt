-- ===== src/Billing/Rules.antt =====
-- The plan catalogue and the plans that fit a shop.
use ordely.Common.{
  ◌≡◌, ◌↔◌, ◌<◌, String, Bool-cases, inl, inr, subst, str_eq, true, Option, none, some, arith,
  eq_iff, is_set, truthy,
}
use ordely.Store.{Boutique}
use ordely.Billing.{plan_of, current_plan, resolve_provider}

truthy_plan : (code : Option String) → 0 < (plan_of code).price → is_set (truthy code) ≡ true
unfolding plan_of
truthy_plan none h = ground arith
truthy_plan (some c) h = elim (Bool-cases (str_eq c "")) [
  | inl empty ↦
      let h' : 0 < (plan_of (some "")).price =
        subst (λ s. 0 < (plan_of (some s)).price) ((eq_iff c "").0 empty) h in
      absurd (omega arith)
  | inr filled ↦ rw filled
]

-- A shop is on a paid plan exactly when its plan code names a paid plan, the plan has started and
-- it was not cancelled.
pub current_plan-paid_iff :
    (shop : Boutique)
    → (0 < (current_plan shop).price) ↔ (
        (0 < (plan_of shop.plan).price)
        × (is_set shop.plan_started_at ≡ true)
        × (shop.churned_at ≡ none))
unfolding current_plan
current_plan-paid_iff shop = ground (arith, truthy_plan shop.plan)

-- Paid plans cannot be bought in production through the simulated gateway: none is resolved there.
pub resolve_provider_production :
    (name : Option String) (reference : String)
    → resolve_provider name (some "production") reference ≡ none
unfolding resolve_provider
resolve_provider_production name reference = ground arith
