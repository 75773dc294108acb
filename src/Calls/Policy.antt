-- ===== src/Calls/Policy.antt =====
-- backend/src/calls/orchestration/call-orchestration-policy.ts: when an order may be called again,
-- and whether the shop takes calls now.
pub mod Attempts
pub mod Window
use ordely.Common.{
  ℕ, zero, suc, ◌+◌, ◌-◌, ◌*◌, String, Bool, true, false, not, ◌&&◌, ◌||◌, Option, none, some, List,
  [], ◌∷◌, if◌then◌else◌, ltb, leb, ◌==◌, str_eq, length, is_set, ◌orelse◌,
}
use ordely.Common.Text.{Text}
use ordely.Voice.Rules.{parse_hhmm, minute_of, is_empty}

pub record CallAttempt : Type 0 where
  pub attempt : ℕ
  pub disposition : Option String
  pub completed_at : Option ℕ

abbrev pub max_attempts : ℕ
max_attempts = 3

-- RETRY_DELAYS_MS[attempt - 1]
abbrev pub retry_delay : ℕ → ℕ
retry_delay attempt = if attempt == 1 then 30 * 60000 else 2 * 60 * 60000

-- `calls.reduce(...)`: the first of the greatest attempts.
unfoldable pub latest_from : CallAttempt → List CallAttempt → CallAttempt
latest_from current [] = current
latest_from current (call ∷ calls) =
    latest_from (if ltb current.attempt call.attempt then call else current) calls

abbrev pub can_retry : Option String → Bool
can_retry disposition =
    let d = disposition orelse "" in
    str_eq d "no_answer" || str_eq d "error" || str_eq d "ambiguous"

unfoldable pub retry_at : CallAttempt → ℕ → Option ℕ
retry_at latest n =
    if not (latest.attempt == n)
      || leb max_attempts latest.attempt
      || not (can_retry latest.disposition)
    then none
    else elim latest.completed_at [ none ↦ none | some at ↦ some (at + retry_delay latest.attempt) ]

unfoldable pub next_attempt_at : List CallAttempt → Option ℕ
unfolding latest_from retry_at
next_attempt_at [] = none
next_attempt_at (call ∷ calls) = retry_at (latest_from call calls) (length (call ∷ calls))

abbrev due : Option ℕ → ℕ → Bool
due none now = false
due (some at) now = leb at now

unfoldable pub next_attempt_number : List CallAttempt → ℕ → Option ℕ
unfolding next_attempt_at
next_attempt_number calls now =
    if leb max_attempts (length calls)
    then none
    else if length calls == 0
    then some 1
    else if due (next_attempt_at calls) now
    then some (length calls + 1)
    else none

abbrev pub clock_of : Option (ℕ × ℕ) → Option ℕ
clock_of none = none
clock_of (some (hour, minute)) =
    if ltb hour 24 && ltb minute 60 then some (hour * 60 + minute) else none

unfoldable pub parse_clock : Text → Option ℕ
unfolding parse_hhmm
parse_clock value = clock_of (parse_hhmm value)

-- `Intl.DateTimeFormat` at the shop's time zone: the hour and the minute of an instant.
abbrev pub LocalClock : Type 0
LocalClock = ℕ → ℕ × ℕ

abbrev pub in_window : Option ℕ → Option ℕ → ℕ → Bool
in_window (some start) (some end) current =
    if leb end start then false else leb start current && ltb current end
in_window _ _ current = false

unfoldable pub is_within_call_window : LocalClock → Option Text → Option Text → ℕ → Bool
is_within_call_window clock (some start) (some end) now =
    if is_empty start || is_empty end
    then false
    else in_window (parse_clock start) (parse_clock end) (minute_of (clock now))
is_within_call_window clock _ _ now = false
