-- ===== src/Calls/Orchestrator/Polling.antt =====
-- Polls requested by the timer and by other services never overlap, and none is lost.
use ordely.Common.{ℕ, ◌+◌, ◌-◌, ◌≤◌, ◌≡◌, Bool, true, false, arith, if◌then◌else◌}
use ordely.Calls.Orchestrator.{PollFlags, enter_poll, leave_poll}

-- The orchestrator among its callers: its flags, the passes under way, and whether a request is owed: one that
-- no pass has begun after.
pub record Polls : Type 0 where
  pub flags : PollFlags
  pub running : ℕ
  pub owed : Bool

abbrev pub idle : Polls
idle = record {
  flags = record { polling = false; poll_requested = false };
  running = 0;
  owed = false;
}

abbrev begin : Polls → Bool × PollFlags → Polls
begin s (started, flags) = record s {
  flags = flags;
  running = if started then s.running + 1 else s.running;
  owed = if started then false else true;
}

-- Somebody calls `pollOnce`.
unfoldable pub request : Polls → Polls
unfolding enter_poll
request s = begin s (enter_poll s.flags)

-- A pass ends: its `finally` runs, and calls `pollOnce` again without waiting.
unfoldable pub finish : Polls → Polls
unfolding leave_poll request
finish s =
    let (again, flags) = leave_poll s.flags in
    let ended = record s { flags = flags; running = s.running - 1 } in
    if again then request ended else ended

pub data Step : Polls → Polls → Type 0 where
  requested : (s : Polls) → Step s (request s)
  finished : (s : Polls) → 1 ≤ s.running → Step s (finish s)

pub data Reach (s : Polls) : Polls → Type 0 where
  here : Reach s s
  next : {t u : Polls} → Reach s t → Step t u → Reach s u

record IsGuarded (s : Polls) : Type 0 where
  pub busy : s.flags.polling ≡ true → s.running ≡ 1
  pub free : s.flags.polling ≡ false → (s.running ≡ 0) × (s.flags.poll_requested ≡ false)
  pub owing : s.owed ≡ s.flags.poll_requested

request-IsGuarded : (s : Polls) → IsGuarded s → IsGuarded (request s)
unfolding request
request-IsGuarded s g = ground arith

finish-IsGuarded : (s : Polls) → 1 ≤ s.running → IsGuarded s → IsGuarded (finish s)
unfolding finish
finish-IsGuarded s h g = ground arith

Step-IsGuarded : {s t : Polls} → Step s t → IsGuarded s → IsGuarded t
Step-IsGuarded (requested s) g = request-IsGuarded s g
Step-IsGuarded (finished s h) g = finish-IsGuarded s h g

Reach-IsGuarded : {s t : Polls} → IsGuarded s → Reach s t → IsGuarded t
Reach-IsGuarded g here = g
Reach-IsGuarded g (next r st) = Step-IsGuarded st (Reach-IsGuarded g r)

idle-IsGuarded : IsGuarded idle
idle-IsGuarded = ground arith

-- In whatever order polls are requested and passes end, at most one pass runs at a time.
pub polls_never_overlap : {s : Polls} → Reach idle s → s.running ≤ 1
polls_never_overlap {s} r = let g = Reach-IsGuarded idle-IsGuarded r in ground (arith, g)

-- In whatever order polls are requested and passes end, a request that no pass has begun after is
-- made while a pass runs, and the end of that pass begins the pass that serves it.
pub owed_poll_is_served :
    {s : Polls}
    → Reach idle s
    → s.owed ≡ true
    → (s.running ≡ 1) × ((finish s).running ≡ 1) × ((finish s).owed ≡ false)
unfolding finish
owed_poll_is_served {s} r h = let g = Reach-IsGuarded idle-IsGuarded r in ground (arith, g)
