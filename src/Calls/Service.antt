-- ===== src/Calls/Service.antt =====
-- backend/src/calls/calls.service.ts: queueing calls, the merchant's corrections and the manual
-- retry. `clock` is the runtime's clock of the shops' time zone and `now` is the current instant.
pub mod Rows
pub mod Queueing
pub mod Highest
pub mod Review
pub mod QueueAll
use ordely.Common.{
  ℕ, ◌+◌, String, Bool, true, false, not, ◌&&◌, ◌||◌, Option, none, some, List, [], ◌∷◌, ◌++◌, map,
  any, length, if◌then◌else◌, ◌==◌, ltb, Exec, Result, ok, err, demand, gets, refuse, modify, pure,
  transaction, ◌>>=◌, ◌>>◌, not_found, conflict, internal, find, select, update, count, ◌ormaybe◌,
}
use ordely.Common.Text.{Text}
use ordely.Voice.Rules.{Line}
use ordely.Store.{
  OrderStatus, CallStatus, Order, Call, Db, order_pending, call_pending, has_status, create_call,
  update_call, calls_of, call_hours, in_shop, emit, call_status_changed, attempt_of,
}
use ordely.Calls.Policy.{LocalClock, next_attempt_number, is_within_call_window}

abbrev pub shop_order : ℕ → ℕ → Order → Bool
shop_order boutique_id id o = o.id == id && o.boutique_id == boutique_id

unfoldable pub find_order : ℕ → ℕ → Db → Option Order
unfolding find
find_order boutique_id id db = find (shop_order boutique_id id) db.orders

abbrev pub open_now : LocalClock → ℕ → ℕ → Db → Bool
open_now clock now boutique_id db =
    let (start, end) = call_hours boutique_id db in is_within_call_window clock start end now

abbrev pub any_pending : List Call → Bool
any_pending calls = any (λ c. call_pending c.status) calls

abbrev created_or_fail : Db → Option (Call × Db) → Result Call × Db
created_or_fail db none = (err internal, db)
created_or_fail db (some (call, after)) = (ok call, after)

-- `call.create`: a unique violation is not caught here.
unfoldable pub insert_call : ℕ → ℕ → ℕ → Exec Db Call
insert_call now order_id attempt db = created_or_fail db (create_call now order_id attempt db)

abbrev pub announce_call : ℕ → Call → Db → Db
announce_call boutique_id call db =
    emit (call_status_changed boutique_id call.id call.order_id call.status none) db

-- One step on the database: the source awaits between the reads and the insert, with no transaction,
-- so that another request may run between them. The unique index on (order, attempt) is what then
-- refuses the second row.
unfoldable pub queue : LocalClock → ℕ → ℕ → ℕ → Exec Db Call
queue clock now boutique_id order_id = do
  order ← demand not_found (find_order boutique_id order_id)
  refuse (not (order_pending order.status)) conflict
  open_shop ← gets (open_now clock now boutique_id)
  refuse (not open_shop) conflict
  calls ← gets (calls_of order_id)
  refuse (any_pending calls) conflict
  attempt ← demand conflict (λ db. next_attempt_number (map attempt_of calls) now)
  call ← insert_call now order_id attempt
  modify (announce_call boutique_id call)
  pure call

-- The orders of the shop that wait with no call queued.
abbrev pub is_idle : ℕ → Db → Order → Bool
is_idle boutique_id db o =
    o.boutique_id == boutique_id && order_pending o.status && not (any_pending (calls_of o.id db))

abbrev with_attempt : ℕ → Option ℕ → List (ℕ × ℕ) → List (ℕ × ℕ)
with_attempt order_id none rest = rest
with_attempt order_id (some attempt) rest = (order_id, attempt) ∷ rest

-- The `flatMap` of `queueAllPending`, for a list of orders.
unfoldable pub eligible : LocalClock → ℕ → Db → List Order → List (ℕ × ℕ)
eligible clock now db [] = []
eligible clock now db (o ∷ orders) =
    let rest = eligible clock now db orders in
    if open_now clock now o.boutique_id db
    then with_attempt o.id (next_attempt_number (map attempt_of (calls_of o.id db)) now) rest
    else rest

-- `createMany({ data, skipDuplicates: true })`: the number of rows written.
abbrev pub insert_or_skip : ℕ → ℕ × ℕ → ℕ × Db → ℕ × Db
insert_or_skip now (order_id, attempt) (n, db) = elim (create_call now order_id attempt db) [
  | none ↦ (n, db)
  | some (call, after) ↦ (n + 1, after)
]

unfoldable pub create_many : ℕ → List (ℕ × ℕ) → ℕ × Db → ℕ × Db
create_many now [] s = s
create_many now (row ∷ rows) s = create_many now rows (insert_or_skip now row s)

unfoldable pub queue_all_pending : LocalClock → ℕ → ℕ → Db → ℕ × Db
queue_all_pending clock now boutique_id db =
    create_many now (eligible clock now db (select (is_idle boutique_id db) db.orders)) (0, db)

-- `Math.max(...order.calls.map((call) => call.attempt))`, of a list with that first attempt.
unfoldable pub max_attempt : ℕ → List Call → ℕ
max_attempt m [] = m
max_attempt m (c ∷ calls) = max_attempt (if ltb m c.attempt then c.attempt else m) calls

abbrev pub order_unreachable : OrderStatus → Bool
order_unreachable OrderStatus.unreachable = true
order_unreachable _ = false

-- `updateMany({ where: { id, boutiqueId, status: 'unreachable' }, data: { status: 'pending' } })`
abbrev pub reopens : ℕ → ℕ → Order → Bool
reopens boutique_id id o = shop_order boutique_id id o && order_unreachable o.status

abbrev last_attempt : List Call → Option ℕ
last_attempt [] = none
last_attempt (c ∷ calls) = some (max_attempt c.attempt calls)

abbrev reopen_order : ℕ → ℕ → Db → Db
reopen_order boutique_id order_id db = record db {
  orders = update (reopens boutique_id order_id) (has_status OrderStatus.pending) db.orders;
}

unfoldable pub reopen : ℕ → ℕ → ℕ → Exec Db Call
reopen now boutique_id order_id = do
  order ← demand not_found (find_order boutique_id order_id)
  refuse (not (order_unreachable order.status)) conflict
  calls ← gets (calls_of order_id)
  refuse (any_pending calls) conflict
  last ← demand conflict (λ db. last_attempt calls)
  reopened ← gets (λ db. count (reopens boutique_id order_id) db.orders)
  modify (reopen_order boutique_id order_id)
  refuse (reopened == 0) conflict
  insert_call now order_id (last + 1)

unfoldable pub retry_after_review : ℕ → ℕ → ℕ → Exec Db Call
retry_after_review now boutique_id order_id = do
  call ← transaction (reopen now boutique_id order_id)
  modify (announce_call boutique_id call)
  pure call

pub record UpdateCallDto : Type 0 where
  pub status : CallStatus
  pub duration_seconds : Option ℕ
  pub language : Option String
  pub transcript : Option (List Line)
  pub recording_url : Option String

abbrev or_kept {ℓ} : {A : Type ℓ} → Option A → A → A
or_kept none a = a
or_kept (some b) a = b

abbrev pub correct : UpdateCallDto → Call → Call
correct dto c = record c {
  status = dto.status;
  duration_seconds = dto.duration_seconds ormaybe c.duration_seconds;
  language = dto.language ormaybe c.language;
  transcript = or_kept dto.transcript c.transcript;
  recording_url = dto.recording_url ormaybe c.recording_url;
}

-- `findFirst({ where: { id, order: { boutiqueId } } })`
abbrev pub shop_call : Db → ℕ → ℕ → Call → Bool
shop_call db boutique_id id c = c.id == id && in_shop db boutique_id c.order_id

unfoldable pub correct_call : ℕ → ℕ → UpdateCallDto → Exec Db Call
correct_call boutique_id id dto = do
  demand not_found (λ db. find (shop_call db boutique_id id) db.calls)
  call ← update_call id (correct dto)
  modify (announce_call boutique_id call)
  pure call
