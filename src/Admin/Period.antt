-- ===== src/Admin/Period.antt =====
-- backend/src/admin/period.ts: the window of a report and the one before it. The instant at which a
-- Tunis day begins, as `Date` reads it, is a parameter.
use ordely.Common.{
  ℕ, ◌+◌, ◌-◌, ◌*◌, ◌/◌, ◌≤◌, ◌<◌, ◌≡◌, refl, String, Option, none, some, arith, subst,
  if◌then◌else◌, ltb, leb, ◌orelse◌, truthy, Result, ok, err, bad_request, Bool-cases, inl, inr,
}

pub data PeriodRange : Type 0 where
  days_7 days_30 days_90 custom : PeriodRange

abbrev pub day_ms : ℕ
day_ms = 24 * 60 * 60 * 1000

abbrev pub tunis_offset_ms : ℕ
tunis_offset_ms = 60 * 60 * 1000

abbrev pub max_days : ℕ
max_days = 366

pub record PeriodQuery : Type 0 where
  pub range : Option PeriodRange
  pub from : Option String
  pub to : Option String

-- The window and the one before it; the range that was asked for is left out.
pub record Period : Type 0 where
  pub from : ℕ
  pub to : ℕ
  pub prev_from : ℕ
  pub prev_to : ℕ
  pub days : ℕ

-- The last `n` Tunis days, today included.
abbrev pub last_days : ℕ → ℕ → Period
last_days n now =
    let today = (now + tunis_offset_ms) / day_ms * day_ms - tunis_offset_ms in
    let from = today - (n - 1) * day_ms in
    record {
      from = from;
      to = now;
      prev_from = from - n * day_ms;
      prev_to = now - n * day_ms;
      days = n;
    }

-- `Math.round(span / DAY_MS)`
abbrev pub rounded_days : ℕ → ℕ
rounded_days span = (span + day_ms / 2) / day_ms

abbrev pub min_of : ℕ → ℕ → ℕ
min_of a b = if leb a b then a else b

abbrev pub span_window : ℕ → ℕ → Period
span_window from to = record {
  from = from;
  to = to;
  prev_from = from - (to - from);
  prev_to = from;
  days = rounded_days (to - from);
}

abbrev pub checked_window : ℕ → ℕ → Result Period
checked_window from to =
    if leb to from
    then err bad_request
    else if ltb (max_days * day_ms) (to - from)
    then err bad_request
    else ok (span_window from to)

abbrev pub custom_days : ℕ → Option ℕ → Option ℕ → Result Period
custom_days now (some from) (some end) = checked_window from (min_of (end + day_ms) now)
custom_days now _ _ = err bad_request

abbrev day_of : (String → Option ℕ) → Option String → Option ℕ
day_of start_of_day none = none
day_of start_of_day (some day) = start_of_day day

abbrev pub of_range : (String → Option ℕ) → ℕ → PeriodQuery → PeriodRange → Result Period
of_range start_of_day now query PeriodRange.days_7 = ok (last_days 7 now)
of_range start_of_day now query PeriodRange.days_30 = ok (last_days 30 now)
of_range start_of_day now query PeriodRange.days_90 = ok (last_days 90 now)
of_range start_of_day now query PeriodRange.custom =
    custom_days now (day_of start_of_day (truthy query.from))
      (day_of start_of_day (truthy query.to))

-- An absent or invalid date of a custom range is a bad request.
unfoldable pub resolve_period : (String → Option ℕ) → ℕ → PeriodQuery → Result Period
resolve_period start_of_day now query =
    of_range start_of_day now query (query.range orelse PeriodRange.days_30)

-- What a window promises, for instants a year or more after 1970.
pub record IsPeriod (now : ℕ) (p : Period) : Type 0 where
  pub from_to : p.from < p.to
  pub not_future : p.to ≤ now
  pub at_most : p.to - p.from ≤ 366 * 86400000
  pub same_length : p.to + p.prev_from ≡ p.prev_to + p.from
  pub before : p.prev_to ≤ p.from
  pub near : p.from ≤ p.prev_to + 86400000

abbrev year_ms : ℕ
year_ms = 366 * 86400000

seven-IsPeriod : (now : ℕ) → 2 * year_ms ≤ now → IsPeriod now (last_days 7 now)
seven-IsPeriod now late = record {
  from_to = omega arith;
  not_future = omega arith;
  at_most = omega arith;
  same_length = omega arith;
  before = omega arith;
  near = omega arith;
}

thirty-IsPeriod : (now : ℕ) → 2 * year_ms ≤ now → IsPeriod now (last_days 30 now)
thirty-IsPeriod now late = record {
  from_to = omega arith;
  not_future = omega arith;
  at_most = omega arith;
  same_length = omega arith;
  before = omega arith;
  near = omega arith;
}

ninety-IsPeriod : (now : ℕ) → 2 * year_ms ≤ now → IsPeriod now (last_days 90 now)
ninety-IsPeriod now late = record {
  from_to = omega arith;
  not_future = omega arith;
  at_most = omega arith;
  same_length = omega arith;
  before = omega arith;
  near = omega arith;
}

min_of-le : (a b : ℕ) → min_of a b ≤ b
min_of-le a b = ground arith

ok_of : (p q : Period) → ok p ≡ ok q → p ≡ q
ok_of p q h = ground arith

span_window-IsPeriod :
    (now from to : ℕ)
    → from < to
    → to ≤ now
    → to - from ≤ year_ms
    → year_ms ≤ from
    → IsPeriod now (span_window from to)
span_window-IsPeriod now from to some_time past short known = record {
  from_to = some_time;
  not_future = past;
  at_most = short;
  same_length = omega arith;
  before = omega arith;
  near = omega arith;
}

checked_window-IsPeriod :
    (now from to : ℕ) (p : Period)
    → to ≤ now
    → year_ms ≤ from
    → checked_window from to ≡ ok p
    → IsPeriod now p
checked_window-IsPeriod now from to p past known h = elim (Bool-cases (leb to from)) [
  | inl empty ↦ absurd (ground arith)
  | inr some_time ↦ elim (Bool-cases (ltb (max_days * day_ms) (to - from))) [
    | inl long ↦ absurd (ground arith)
    | inr short ↦
        let same : ok (span_window from to) ≡ ok p = rw (← h, some_time, short) refl in
        subst (IsPeriod now) (ok_of (span_window from to) p same)
          (span_window-IsPeriod now from to (ground arith) past (ground arith) known)
  ]
]

custom_days-IsPeriod :
    (now : ℕ) (from end : Option ℕ) (p : Period)
    → ((i : ℕ) → from ≡ some i → year_ms ≤ i)
    → custom_days now from end ≡ ok p
    → IsPeriod now p
custom_days-IsPeriod now none end p known h = cc
custom_days-IsPeriod now (some from) none p known h = cc
custom_days-IsPeriod now (some from) (some end) p known h =
    checked_window-IsPeriod now from (min_of (end + day_ms) now) p (min_of-le (end + day_ms) now)
      (known from refl) h

-- A window that is resolved is not empty, ends no later than now, covers at most 366 days, and is
-- compared with a window of the same length that ends no later than it begins, and at most a day
-- before: for instants two years of 366 days or more after 1970, and custom dates one such year or
-- more after it.
pub resolve_period-IsPeriod :
    (start_of_day : String → Option ℕ) (now : ℕ) (query : PeriodQuery) (p : Period)
    → 2 * (366 * 86400000) ≤ now
    → ((day : String) (i : ℕ) → start_of_day day ≡ some i → 366 * 86400000 ≤ i)
    → resolve_period start_of_day now query ≡ ok p
    → IsPeriod now p
unfolding resolve_period
resolve_period-IsPeriod start_of_day now query p late known h =
    by_range (query.range orelse PeriodRange.days_30) h
  where
    by_range : (r : PeriodRange) → of_range start_of_day now query r ≡ ok p → IsPeriod now p
    by_range PeriodRange.days_7 h =
        subst (IsPeriod now) (ok_of (last_days 7 now) p h) (seven-IsPeriod now late)
    by_range PeriodRange.days_30 h =
        subst (IsPeriod now) (ok_of (last_days 30 now) p h) (thirty-IsPeriod now late)
    by_range PeriodRange.days_90 h =
        subst (IsPeriod now) (ok_of (last_days 90 now) p h) (ninety-IsPeriod now late)
    by_range PeriodRange.custom h =
        custom_days-IsPeriod now (day_of start_of_day (truthy query.from)) _ p
          (of_day (truthy query.from)) h
      where
        of_day : (day : Option String) (i : ℕ) → day_of start_of_day day ≡ some i → year_ms ≤ i
        of_day none i e = cc
        of_day (some day) i e = known day i e
