-- ===== src/Billing/Subscribe.antt =====
-- What `subscribe` of billing.service.ts does to a shop's plan and to the payments.
use ordely.Common.{
  ℕ, ◌≡◌, ◌⊎◌, refl, String, Option, none, some, [], ◌∷◌, ◌++◌, arith, inl, inr, err, result, final,
  HttpError, find, Option-cases, Result-cases, truthy, Bool-cases, ◌==◌,
}
use ordely.Billing.{
  Plan, plan_of, ChargeStatus, succeeded, failed, PaymentProvider, Payment, Ledger, SubscribeDto,
  subscribe, subscribe_paid, with_id, payment_record,
}

ChargeStatus-cases : (s : ChargeStatus) → (s ≡ succeeded) ⊎ (s ≡ failed)
ChargeStatus-cases succeeded = inl refl
ChargeStatus-cases failed = inr refl

abbrev KeepsPlans : ℕ → Ledger → Ledger → Type 0
KeepsPlans boutique_id l after =
    (after.boutiques ≡ l.boutiques)
    × ((after.payments ≡ l.payments)
        ⊎ ((p : Payment) × (p.status ≡ failed)
            × (p.boutique_id ≡ boutique_id)
            × (after.payments ≡ l.payments ++ p ∷ [])))

subscribe_paid_failed :
    (provider : Option PaymentProvider) (now boutique_id : ℕ) (plan : Plan) (token : Option String)
    (l : Ledger) {e : HttpError}
    → result (subscribe_paid provider now boutique_id plan token) l ≡ err e
    → KeepsPlans boutique_id l (final (subscribe_paid provider now boutique_id plan token) l)
unfolding subscribe_paid
subscribe_paid_failed none now boutique_id plan token l h = (refl, inl refl)
subscribe_paid_failed (some gateway) now boutique_id plan token l h =
    elim (Option-cases (truthy token)) [
      | inl empty ↦ (ground arith, inl (ground arith))
      | inr (t, given) ↦
          elim (Result-cases (gateway.charge (record { amount = plan.price; token = t }))) [
            | inl (e, thrown) ↦ (ground arith, inl (ground arith))
            | inr (c, answered) ↦ elim (ChargeStatus-cases c.status) [
              | inl paid ↦ absurd (ground arith)
              | inr refused ↦ (
                ground arith,
                inr (payment_record boutique_id plan gateway.name c, refused, refl, ground arith),
              )
            ]
          ]
    ]

module _ (provider : Option PaymentProvider) (now boutique_id : ℕ) (dto : SubscribeDto)
    (l : Ledger) where
  -- A request that fails leaves every shop's plan as it was; it leaves the payments as they were too,
  -- or adds the one failed attempt that the gateway reported.
  pub subscribe_failed :
      {e : HttpError}
      → result (subscribe provider now boutique_id dto) l ≡ err e
      → let after = final (subscribe provider now boutique_id dto) l in
        (after.boutiques ≡ l.boutiques)
        × ((after.payments ≡ l.payments)
            ⊎ ((p : Payment) × (p.status ≡ failed)
                × (p.boutique_id ≡ boutique_id)
                × (after.payments ≡ l.payments ++ p ∷ [])))
  unfolding subscribe
  subscribe_failed {e} h = elim (Option-cases (find (with_id boutique_id) l.boutiques)) [
    | inl missing ↦ (ground arith, inl (ground arith))
    | inr (shop, found) ↦ elim (Bool-cases ((plan_of (some dto.plan)).price == 0)) [
      | inl no_charge ↦ absurd (ground arith)
      | inr charged ↦
          let plan = plan_of (some dto.plan) in
          let same : subscribe provider now boutique_id dto l
              ≡ subscribe_paid provider now boutique_id plan dto.payment_token l =
            ground arith in
          rw (same, final)
            (subscribe_paid_failed provider now boutique_id plan dto.payment_token l
              (rw (same, result) at h))
    ]
  ]
