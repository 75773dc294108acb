-- ===== src/Voice/Rules.antt =====
-- backend/src/voice/voice.rules.ts: what a finished call means, the readable transcript, the
-- shop's call hours and the task ids. Texts are lists of UTF-16 code units.
pub mod Decision
pub mod Transcript
pub mod TaskId
use ordely.Common.{
  ℕ, zero, suc, ◌+◌, ◌-◌, ◌*◌, ◌/◌, ◌%◌, ◌^◌, String, Bool, true, false, ◌&&◌, ◌||◌, Option, none,
  some, List, [], ◌∷◌, ◌++◌, if◌then◌else◌, ltb, leb, ◌==◌, str_eq, holds, any, all, length, find,
}
use ordely.Common.Int.{ℤ, pos, leb_ℤ}
use ordely.Common.Text.{Text, codes}
use mathlib.Core.List.{reverse}

-- A finite floating-point number, counted in units of 2^-1074: every double is such a multiple.
abbrev pub Number : Type 0
Number = ℤ

unfoldable pub one : Number
one = pos (2 ^ 1074)

pub data Outcome : Type 0 where
  confirmed cancelled no_answer unresolved : Outcome

pub record Report : Type 0 where
  pub disposition : String
  pub intent : Option String
  pub confidence : Option Number

-- `typeof c === 'number' && c >= min && c <= 1`
abbrev pub is_confident : Option Number → Number → Bool
is_confident none min = false
is_confident (some c) min = leb_ℤ min c && leb_ℤ c one

unfoldable pub decide_outcome : Report → Number → Outcome
decide_outcome result min_confidence =
    if str_eq result.disposition "no_answer" || str_eq result.disposition "rejected"
    then no_answer
    else if str_eq result.disposition "error"
    then no_answer
    else let confident = is_confident result.confidence min_confidence in
      if confident && holds result.intent "CONFIRMED"
      then confirmed
      else if confident && holds result.intent "CANCELLED"
      then cancelled
      else unresolved

pub data Speaker : Type 0 where
  agent customer : Speaker

abbrev pub same_speaker : Speaker → Speaker → Bool
same_speaker agent agent = true
same_speaker customer customer = true
same_speaker _ _ = false

pub record TranscriptPart : Type 0 where
  pub seq : ℕ
  pub speaker : Speaker
  pub text : Text

pub record Line : Type 0 where
  pub speaker : Speaker
  pub text : Text

-- The map by sequence number, in insertion order: the first fragment of each number stays.
abbrev pub has_seq : ℕ → List TranscriptPart → Bool
has_seq n parts = any (λ p. p.seq == n) parts

unfoldable pub by_seq : List TranscriptPart → List TranscriptPart → List TranscriptPart
by_seq kept [] = kept
by_seq kept (p ∷ parts) = by_seq (if has_seq p.seq kept then kept else kept ++ p ∷ []) parts

-- `sort((a, b) => a.seq - b.seq)`
unfoldable pub insert_part : TranscriptPart → List TranscriptPart → List TranscriptPart
insert_part p [] = p ∷ []
insert_part p (q ∷ parts) = if leb p.seq q.seq then p ∷ q ∷ parts else q ∷ insert_part p parts

unfoldable pub sort_parts : List TranscriptPart → List TranscriptPart
sort_parts [] = []
sort_parts (p ∷ parts) = insert_part p (sort_parts parts)

-- One round of the loop over the sorted fragments: the last line grows, or a new one starts.
unfoldable pub add_line : List Line → TranscriptPart → List Line
add_line [] p = record { speaker = p.speaker; text = p.text } ∷ []
add_line (last ∷ []) p =
    if same_speaker last.speaker p.speaker
    then record last { text = last.text ++ p.text } ∷ []
    else last ∷ record { speaker = p.speaker; text = p.text } ∷ []
add_line (l ∷ last ∷ lines) p = l ∷ add_line (last ∷ lines) p

unfoldable pub join_lines : List Line → List TranscriptPart → List Line
join_lines lines [] = lines
join_lines lines (p ∷ parts) = join_lines (add_line lines p) parts

-- The characters of `\s`, which are also those that `trim` removes.
unfoldable pub is_space : ℕ → Bool
is_space c =
    leb 9 c && leb c 13
    || c == 32
    || c == 160
    || c == 0x1680
    || leb 0x2000 c && leb c 0x200a
    || c == 0x2028
    || c == 0x2029
    || c == 0x202f
    || c == 0x205f
    || c == 0x3000
    || c == 0xfeff

-- `replace(/\s+/g, ' ')`; the flag says that the character before was a space.
unfoldable pub collapse : Bool → Text → Text
collapse after [] = []
collapse after (c ∷ t) =
    let rest = collapse (is_space c) t in
    if is_space c then (if after then rest else 32 ∷ rest) else c ∷ rest

unfoldable pub trim_start : Text → Text
trim_start [] = []
trim_start (c ∷ t) = if is_space c then trim_start t else c ∷ t

-- `trim()`
unfoldable pub trim : Text → Text
unfolding trim_start is_space
trim t = reverse (trim_start (reverse (trim_start t)))

abbrev pub is_empty : Text → Bool
is_empty [] = true
is_empty (c ∷ t) = false

unfoldable pub tidy : List Line → List Line
unfolding trim collapse
tidy [] = []
tidy (l ∷ lines) =
    let text = trim (collapse false l.text) in
    let rest = tidy lines in if is_empty text then rest else record l { text = text } ∷ rest

unfoldable pub merge_transcript : List TranscriptPart → List Line
unfolding by_seq insert_part sort_parts add_line join_lines tidy
merge_transcript parts = tidy (join_lines [] (sort_parts (by_seq [] parts)))

abbrev pub tunis_offset_minutes : ℕ
tunis_offset_minutes = 60

-- The two numbers of an "HH:MM" text. The columns hold no other text: the HOUR pattern of
-- backend/src/boutique/dto/agent.dto.ts guards what is written.
abbrev pub is_digit : ℕ → Bool
is_digit c = leb b'0' c && leb c b'9'

abbrev two_digits : ℕ → ℕ → ℕ
two_digits a b = (a - b'0') * 10 + (b - b'0')

unfoldable pub parse_hhmm : Text → Option (ℕ × ℕ)
parse_hhmm (a ∷ b ∷ c ∷ d ∷ e ∷ []) =
    if is_digit a && is_digit b && c == b':' && is_digit d && is_digit e
    then some (two_digits a b, two_digits d e)
    else none
parse_hhmm _ = none

abbrev pub minute_of : ℕ × ℕ → ℕ
minute_of (h, m) = h * 60 + m

-- `now.getUTCHours() * 60 + now.getUTCMinutes()`, from the milliseconds since 1970.
abbrev pub utc_minutes : ℕ → ℕ
utc_minutes now = now / 3600000 % 24 * 60 + now / 60000 % 60

-- A comparison with `NaN` is false.
abbrev in_hours : ℕ → Option (ℕ × ℕ) → Option (ℕ × ℕ) → Bool
in_hours local (some start) (some end) = leb (minute_of start) local && ltb local (minute_of end)
in_hours local _ _ = false

unfoldable pub within_call_hours : Option Text → Option Text → ℕ → Bool
unfolding parse_hhmm
within_call_hours (some start) (some end) now =
    if is_empty start || is_empty end
    then true
    else in_hours ((utc_minutes now + tunis_offset_minutes) % 1440) (parse_hhmm start)
        (parse_hhmm end)
within_call_hours _ _ now = true

-- Decimal digits of a number, as template literals print it. A number has at most as many rounds
-- as its value, so the fuel `suc n` is enough.
unfoldable pub decimal_from : ℕ → ℕ → Text
decimal_from zero n = []
decimal_from (suc fuel) n =
    let rest = decimal_from fuel (n / 10) ++ (b'0' + n % 10) ∷ [] in
    if ltb n 10 then (b'0' + n) ∷ [] else rest

unfoldable pub decimal : ℕ → Text
unfolding decimal_from
decimal n = decimal_from (suc n) n

-- `Number` of a text of digits.
unfoldable pub digits_value : ℕ → Text → ℕ
digits_value v [] = v
digits_value v (c ∷ t) = digits_value (v * 10 + (c - b'0')) t

unfoldable pub task_id_for : ℕ → Text
unfolding decimal
task_id_for call_id = codes "call-" ++ decimal call_id

-- `/^call-(\d{1,10})$/`
unfoldable pub strip_prefix : Text → Text → Option Text
strip_prefix [] t = some t
strip_prefix (c ∷ p) [] = none
strip_prefix (c ∷ p) (d ∷ t) = if c == d then strip_prefix p t else none

abbrev call_digits : Option Text → Option ℕ
call_digits none = none
call_digits (some t) =
    if all is_digit t && leb 1 (length t) && leb (length t) 10
    then some (digits_value 0 t)
    else none

unfoldable pub call_id_from : Text → Option ℕ
unfolding strip_prefix digits_value
call_id_from task_id = call_digits (strip_prefix (codes "call-") task_id)
