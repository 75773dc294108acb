-- ===== src/Voice/RingioAdapter/Capacity.antt =====
-- When the agent takes a task: backend/src/voice/adapters/ringio.adapter.ts as the `startTask` of
-- backend/src/calls/orchestration/call-dispatcher.service.ts.
use ordely.Common.{
  ℕ, ◌≡◌, refl, ◌∙◌, ◌↔◌, String, true, false, Option, none, some, arith, Bool-cases, Option-cases,
  inl, inr, ◌==◌, ◌ormaybe◌, find, update, is_set, final, if◌then◌else◌,
}
use ordely.Common.Text.{Text}
use ordely.Calls.Policy.{LocalClock}
use ordely.Calls.Dispatcher.{VoiceCallTask, accepted, deferred, Dispatcher, dispatch_call}
use ordely.Calls.Dispatcher.Effects.{dispatch_call_all_deferred}
use ordely.Voice.RingioAdapter.{
  Config, Runtime, Failure, Adapter, start_task, check_capacity, is_busy, with_capacity,
  available_url, launch, on_exit, clear_child, report_failure, report_of, failed_exit, has_worker,
  exited_with,
}

module _ (config : Config) (runtime : Runtime) (s : Adapter) where
  -- The server that a task would go to: the one that was found ready, or else the first healthy
  -- one, if it can launch a call.
  abbrev pub target : Option Text
  target = with_capacity runtime (s.ready_url ormaybe available_url config runtime)

  -- A task is accepted exactly when no process runs, the server that was found ready (or else the
  -- first healthy one) can launch a call, and the fork succeeds.
  pub start_task-accepted_iff :
      (task : VoiceCallTask)
      → ((start_task config runtime task s).0 ≡ accepted)
        ↔ ((is_busy s ≡ false) × (is_set target ≡ true) × (runtime.fork_error ≡ none))
  unfolding start_task
  start_task-accepted_iff task = elim (Bool-cases (is_busy s)) [
    | inl busy ↦ rw busy (ground arith)
    | inr free ↦ elim (Option-cases target) [
      | inl nowhere ↦ rw (free, nowhere) (ground arith)
      | inr (url, there) ↦ elim (Option-cases runtime.fork_error) [
        | inl forked ↦ rw (free, there, launch, forked) (ground arith)
        | inr (error, failing) ↦ rw (free, there, launch, failing) (ground arith)
      ]
    ]
  ]

  -- A room that `checkCapacity` found is used: the next task is accepted, where no process runs,
  -- the server has room still, and the fork succeeds; also if no server is healthy by then.
  pub check_capacity-start_task :
      (later : Runtime) (task : VoiceCallTask) {url : Text}
      → with_capacity runtime (available_url config runtime) ≡ some url
      → is_busy s ≡ false
      → later.can_launch_call url ≡ true
      → later.fork_error ≡ none
      → (start_task config later task (check_capacity config runtime s).1).0 ≡ accepted
  unfolding start_task check_capacity is_busy
  check_capacity-start_task later task ready free room forks =
      rw (ready, free, room, launch, forks) refl

  start_task_busy :
      is_busy s ≡ true → (task : VoiceCallTask) → (start_task config runtime task s).0 ≡ deferred
  unfolding start_task
  start_task_busy busy task = rw busy refl

  -- While a process runs, a dispatch changes nothing, whatever the call.
  pub dispatch_call_busy :
      (clock : LocalClock) (now : ℕ) (uuid : String) (boutique_id call_id : ℕ) (d : Dispatcher)
      → is_busy s ≡ true
      → final
          (dispatch_call clock now uuid
            (λ task. (start_task config runtime task s).0)
            boutique_id
            call_id)
          d
        ≡ d
  dispatch_call_busy clock now uuid b c d busy =
      dispatch_call_all_deferred clock now uuid (λ task. (start_task config runtime task s).0) b c d
        (start_task_busy busy)

clear_child-child :
    (id child : ℕ) (s : Adapter)
    → s.child ≡ some child
    → (clear_child id s).child ≡ (if child == id then none else some child)
clear_child-child id child s mine = elim (Bool-cases (child == id)) [
  | inl e ↦ rw (clear_child, mine, e) refl
  | inr e ↦ rw (clear_child, mine, e) mine
]

report_failure-child :
    (id : ℕ) (failure : Failure) (s : Adapter) → (report_failure id failure s).child ≡ s.child
unfolding report_failure
report_failure-child id failure s = elim (Option-cases (find (has_worker id) s.workers)) [
  | inl unknown ↦ rw (unknown, report_of) refl
  | inr (w, found) ↦ elim (Bool-cases w.failure_reported) [
    | inl again ↦ rw (found, report_of, again) refl
    | inr first ↦ rw (found, report_of, first) refl
  ]
]

-- The exit of a process frees the adapter exactly where it is the running one: a late exit of an
-- earlier process does not.
pub on_exit-child :
    (id child : ℕ) (code : Option ℕ) (s : Adapter)
    → s.child ≡ some child
    → (on_exit id code s).child ≡ (if child == id then none else some child)
unfolding on_exit report_failure
on_exit-child id child code s mine =
    let left : Adapter = record s {
      workers = update (has_worker id) (λ w. record w { exit_code = code }) s.workers;
    } in
    elim (Bool-cases (failed_exit code (find (has_worker id) left.workers))) [
      | inl fails ↦
          rw fails
            (clear_child-child id child _ (report_failure-child id (exited_with code) left ∙ mine))
      | inr fine ↦ rw fine (clear_child-child id child left mine)
    ]
