-- ===== src/Calls/Policy/Window.antt =====
-- The two tests of a shop's call hours: `isWithinCallWindow` of call-orchestration-policy.ts and
-- `withinCallHours` of voice.rules.ts.
use ordely.Common.{
  ℕ, ◌+◌, ◌*◌, ◌/◌, ◌%◌, ◌<◌, ◌≤◌, ◌≡◌, refl, true, false, Option, none, some, [], ◌∷◌, arith,
  Option-cases, inl, inr,
}
use ordely.Common.Text.{Text}
use ordely.Voice.Rules.{parse_hhmm, minute_of, utc_minutes, within_call_hours, is_empty}
use ordely.Calls.Policy.{LocalClock, parse_clock, clock_of, in_window, is_within_call_window}

-- The clock of Africa/Tunis: one hour ahead of UTC, all year.
abbrev pub IsTunis : LocalClock → Type 0
IsTunis clock = (now : ℕ) → clock now ≡ ((now / 3600000 + 1) % 24, now / 60000 % 60)

tunis_minutes :
    (now : ℕ) → (utc_minutes now + 60) % 1440 ≡ (now / 3600000 + 1) % 24 * 60 + now / 60000 % 60
tunis_minutes now = omega arith

is_empty_of_parse_hhmm : (t : Text) {hm : ℕ × ℕ} → parse_hhmm t ≡ some hm → is_empty t ≡ false
unfolding parse_hhmm
is_empty_of_parse_hhmm [] h = cc
is_empty_of_parse_hhmm (c ∷ t) h = refl

clock_of-eq-some :
    (o : Option (ℕ × ℕ)) {m : ℕ}
    → clock_of o ≡ some m
    → (hm : ℕ × ℕ) × (o ≡ some hm) × (minute_of hm ≡ m) × (m < 1440)
clock_of-eq-some none h = cc
clock_of-eq-some (some (hour, minute)) h = ((hour, minute), refl, ground arith, ground arith)

-- A text that reads as a clock time is not empty and stands for a minute of the day.
pub parse_clock-eq-some :
    (t : Text) {m : ℕ}
    → parse_clock t ≡ some m
    → (hm : ℕ × ℕ) × (parse_hhmm t ≡ some hm) × (minute_of hm ≡ m) × (m < 1440)
unfolding parse_clock
parse_clock-eq-some t h = clock_of-eq-some (parse_hhmm t) h

-- A shop whose two hours are set, well formed and in order is called in the same minutes by the
-- queue of voice.rules.ts and by the orchestrator, if the runtime's clock of the zone is right.
pub within_call_hours-eq-is_within_call_window :
    (clock : LocalClock) (start end : Text) (now : ℕ) {s e : ℕ}
    → IsTunis clock
    → parse_clock start ≡ some s
    → parse_clock end ≡ some e
    → s < e
    → within_call_hours (some start) (some end) now
      ≡ is_within_call_window clock (some start) (some end) now
unfolding within_call_hours is_within_call_window
within_call_hours-eq-is_within_call_window clock start end now {s} {e} tunis hs he lt =
    let (s', ps, ms, bs) = parse_clock-eq-some start hs in
    let (e', pe, me, be) = parse_clock-eq-some end he in
    rw
      (
        is_empty_of_parse_hhmm start ps,
        is_empty_of_parse_hhmm end pe,
        ps,
        pe,
        hs,
        he,
        tunis now,
        tunis_minutes now,
        ms,
        me,
      )
      (ground arith)

in_window-eq-true :
    (o p : Option ℕ) (current : ℕ)
    → in_window o p current ≡ true
    → (s e : ℕ) × (o ≡ some s) × (p ≡ some e) × (s ≤ current) × (current < e)
in_window-eq-true (some s) (some e) current h = (s, e, refl, refl, ground arith, ground arith)
in_window-eq-true _ _ current h = cc

-- The orchestrator calls only inside a window that is set and well formed, at a minute that is not
-- before its start and before its end.
pub is_within_call_window_bounds :
    (clock : LocalClock) (start end : Option Text) (now : ℕ)
    → is_within_call_window clock start end now ≡ true
    → (from to : Text) × (start ≡ some from)
      × (end ≡ some to)
      × ((s e : ℕ) × (parse_clock from ≡ some s)
          × (parse_clock to ≡ some e)
          × (s ≤ minute_of (clock now))
          × (minute_of (clock now) < e))
unfolding is_within_call_window
is_within_call_window_bounds clock (some from) (some to) now h =
    (from, to, refl, refl, in_window-eq-true (parse_clock from) (parse_clock to) _ (ground arith))
is_within_call_window_bounds clock _ _ now h = cc

-- The shop's hours are set and read as two minutes of the day, and the local time is between them.
pub record IsOpen (clock : LocalClock) (start end : Option Text) (now : ℕ) : Type 0 where
  pub start_text : Text
  pub end_text : Text
  pub starts : start ≡ some start_text
  pub ends : end ≡ some end_text
  pub from : ℕ
  pub to : ℕ
  pub reads_from : parse_clock start_text ≡ some from
  pub reads_to : parse_clock end_text ≡ some to
  pub not_before : from ≤ (clock now).0 * 60 + (clock now).1
  pub not_after : (clock now).0 * 60 + (clock now).1 < to

pub is_within_call_window-IsOpen :
    (clock : LocalClock) (start end : Option Text) (now : ℕ)
    → is_within_call_window clock start end now ≡ true
    → IsOpen clock start end now
unfolding is_within_call_window
is_within_call_window-IsOpen clock (some start) (some end) now h =
    elim (Option-cases (parse_clock start)) [
      | inl unread ↦ absurd (ground arith)
      | inr (from, reads_from) ↦ elim (Option-cases (parse_clock end)) [
        | inl unread ↦ absurd (ground arith)
        | inr (to, reads_to) ↦ record {
          start_text = start;
          end_text = end;
          starts = refl;
          ends = refl;
          from = from;
          to = to;
          reads_from = reads_from;
          reads_to = reads_to;
          not_before = ground arith;
          not_after = ground arith;
        }
      ]
    ]
is_within_call_window-IsOpen clock none end now h = cc
is_within_call_window-IsOpen clock (some start) none now h = cc

pub is_within_call_window_of_IsOpen :
    (clock : LocalClock) (start end : Option Text) (now : ℕ)
    → IsOpen clock start end now
    → is_within_call_window clock start end now ≡ true
unfolding is_within_call_window
is_within_call_window_of_IsOpen clock start end now i =
    let (s, ps, ms, bs) = parse_clock-eq-some i.start_text i.reads_from in
    let (e, pe, me, be) = parse_clock-eq-some i.end_text i.reads_to in
    rw
      (
        i.starts,
        i.ends,
        is_empty_of_parse_hhmm i.start_text ps,
        is_empty_of_parse_hhmm i.end_text pe,
        i.reads_from,
        i.reads_to,
      )
      (between i.from i.to _ i.not_before i.not_after)
  where
    between :
        (from to current : ℕ)
        → from ≤ current
        → current < to
        → in_window (some from) (some to) current ≡ true
    between from to current l r = ground arith
