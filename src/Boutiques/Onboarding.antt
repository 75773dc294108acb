-- ===== src/Boutiques/Onboarding.antt =====
-- What the onboarding of boutique.service.ts guarantees.
use ordely.Common.{
  ℕ, ◌+◌, ◌≤◌, ◌<◌, ◌≡◌, true, some, arith, is_set, result, final, ok, err, conflict, Bool-cases,
  inl, inr,
}
use ordely.Voice.Rules.{parse_hhmm, minute_of}
use ordely.Store.{Boutique}
use ordely.Boutiques.{
  Shops, View, AgentDto, next_onboarding_step, complete_onboarding, load, update_agent, view,
}

-- Completing the onboarding of a shop whose required screens are filled in succeeds, and the
-- answer says that it is completed.
pub complete_onboarding_done :
    (now user_id : ℕ) (s : Shops) {b : Boutique}
    → load user_id s ≡ (ok b, s)
    → 3 ≤ next_onboarding_step b
    → (v : View) × (result (complete_onboarding now user_id) s ≡ ok v) × (v.completed ≡ true)
unfolding complete_onboarding view
complete_onboarding_done now user_id s {b} h n =
    elim (Bool-cases (is_set b.onboarding_completed_at)) [
      | inl y ↦ (view b, ground arith, ground arith)
      | inr y ↦ (view (record b { onboarding_completed_at = some now }), ground arith, ground arith)
    ]

-- While a required screen is missing, completing the onboarding is a conflict and writes nothing.
pub complete_onboarding_refused :
    (now user_id : ℕ) (s : Shops) {b : Boutique}
    → load user_id s ≡ (ok b, s)
    → next_onboarding_step b < 3
    → complete_onboarding now user_id s ≡ (err conflict, s)
unfolding complete_onboarding
complete_onboarding_refused now user_id s h n = ground arith

-- Completing the onboarding twice is completing it once: the second time changes nothing, and the
-- instant that was written stays.
pub complete_onboarding_again :
    (now user_id : ℕ) (s : Shops) {b : Boutique}
    → load user_id s ≡ (ok b, s)
    → is_set b.onboarding_completed_at ≡ true
    → final (complete_onboarding now user_id) s ≡ s
unfolding complete_onboarding
complete_onboarding_again now user_id s h c = ground arith

-- Hours that are accepted for a shop's agent, and that read as clock times, leave a window of at
-- least an hour.
pub update_agent_window :
    (user_id : ℕ) (dto : AgentDto) (s : Shops) {v : View} {start end : ℕ × ℕ}
    → result (update_agent user_id dto) s ≡ ok v
    → parse_hhmm dto.call_start_time ≡ some start
    → parse_hhmm dto.call_end_time ≡ some end
    → minute_of start + 60 ≤ minute_of end
unfolding update_agent
update_agent_window user_id dto s h a b = ground arith
