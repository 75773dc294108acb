-- ===== src/Store.antt =====
-- The database that backend/prisma/schema.prisma declares: its rows, its tables and the events
-- that services send to the boutique's room (backend/src/realtime/realtime.service.ts).
-- Instants are milliseconds since 1970, amounts of money are millimes (the columns have three
-- decimals). Columns that no modelled query reads or writes are left out.
use ordely.Common.{
  ℕ, ◌+◌, String, Bool, true, false, ◌&&◌, Option, none, some, List, [], ◌∷◌, ◌++◌, any, ◌==◌,
  if◌then◌else◌, update, find, select, count, ◌≤◌, Exec, pure, require, modify, internal, ◌>>=◌,
  ◌>>◌,
}
use ordely.Common.Text.{Text}
use ordely.Voice.Rules.{TranscriptPart, Line}
use ordely.Calls.Policy.{CallAttempt}

-- ORDER_STATUSES of backend/src/orders/dto/update-order.dto.ts
pub data OrderStatus : Type 0 where
  pending confirmed cancelled unreachable : OrderStatus

-- CALL_STATUSES of backend/src/calls/call-status.ts
pub data CallStatus : Type 0 where
  pending confirmed failed no_answer : CallStatus

abbrev pub order_pending : OrderStatus → Bool
order_pending OrderStatus.pending = true
order_pending _ = false

abbrev pub call_pending : CallStatus → Bool
call_pending CallStatus.pending = true
call_pending _ = false

pub record Item : Type 0 where
  pub product_name : Text
  pub quantity : ℕ
  pub unit_price : ℕ

pub record Order : Type 0 where
  pub id : ℕ
  pub boutique_id : ℕ
  pub customer : Text
  pub phone : Text
  pub total : ℕ
  pub status : OrderStatus
  pub created_at : ℕ
  pub items : List Item

pub record RecordingKeys : Type 0 where
  pub agent : Option Text
  pub customer : Option Text

pub record Call : Type 0 where
  pub id : ℕ
  pub order_id : ℕ
  pub status : CallStatus
  pub attempt : ℕ
  pub duration_seconds : Option ℕ
  pub language : Option String
  pub transcript : List Line
  pub recording_url : Option String
  pub dispatched_at : Option ℕ
  pub provider_call_id : Option String
  pub transcript_parts : List TranscriptPart
  pub recording_keys : RecordingKeys
  pub created_at : ℕ
  pub task_id : Option String
  pub transport_phase : Option String
  pub disposition : Option String
  pub failure_reason : Option String
  pub completed_at : Option ℕ

pub record Boutique : Type 0 where
  pub id : ℕ
  pub name : Option String
  pub business_phone : Option String
  pub platform : Option String
  pub call_languages : List String
  pub call_start_time : Option Text
  pub call_end_time : Option Text
  pub confirmation_process : Option String
  pub sector : Option String
  pub delivery_zones : List String
  pub daily_order_volume : Option String
  pub acquisition_source : Option String
  pub carrier : Option String
  pub onboarding_completed_at : Option ℕ
  pub plan : Option String
  pub plan_started_at : Option ℕ
  pub churned_at : Option ℕ

-- What a room receives: `order.created`, `order.status_changed`, `call.status_changed`. A deleted
-- order and an import have statuses of their own, which no order row has.
pub data OrderNews : Type 0 where
  has : OrderStatus → OrderNews
  deleted imported : OrderNews

pub data Event : Type 0 where
  order_created : (boutique_id order_id : ℕ) → OrderNews → Event
  order_status_changed : (boutique_id order_id : ℕ) → OrderNews → Event
  call_status_changed : (boutique_id call_id order_id : ℕ) → CallStatus → Option String → Event

pub record Db : Type 0 where
  pub boutiques : List Boutique
  pub orders : List Order
  pub calls : List Call
  pub next_order_id : ℕ
  pub next_call_id : ℕ
  pub events : List Event

unfoldable pub emit : Event → Db → Db
emit e db = record db { events = db.events ++ e ∷ [] }

-- `where: { id, status: 'pending' }` on orders and on calls
abbrev pub pending_order : ℕ → Order → Bool
pending_order id o = o.id == id && order_pending o.status

abbrev pub pending_call : ℕ → Call → Bool
pending_call id c = c.id == id && call_pending c.status

abbrev pub has_status : OrderStatus → Order → Order
has_status s o = record o { status = s }

-- `tx.order.updateMany({ where: { id, status: 'pending' }, data: { status } })`
unfoldable pub settle_order : ℕ → OrderStatus → Db → Db
unfolding update
settle_order id s db = record db { orders = update (pending_order id) (has_status s) db.orders }

-- A new row of `calls`, with the defaults of the schema.
abbrev pub new_call : ℕ → ℕ → ℕ → ℕ → Call
new_call id now order_id attempt = record {
  id = id;
  order_id = order_id;
  status = CallStatus.pending;
  attempt = attempt;
  duration_seconds = none;
  language = none;
  transcript = [];
  recording_url = none;
  dispatched_at = none;
  provider_call_id = none;
  transcript_parts = [];
  recording_keys = record { agent = none; customer = none };
  created_at = now;
  task_id = none;
  transport_phase = none;
  disposition = none;
  failure_reason = none;
  completed_at = none;
}

-- `@@unique([orderId, attempt])`
abbrev pub attempt_taken : ℕ → ℕ → Db → Bool
attempt_taken order_id attempt db =
    any (λ c. c.order_id == order_id && c.attempt == attempt) db.calls

-- `call.create({ data: { orderId, attempt } })`; `none` is the unique violation P2002. The foreign key
-- on the order is not checked: the callers name an order that they read in the same step.
unfoldable pub create_call : ℕ → ℕ → ℕ → Db → Option (Call × Db)
create_call now order_id attempt db =
    if attempt_taken order_id attempt db
    then none
    else let call = new_call db.next_call_id now order_id attempt in
      some (call, record db { calls = db.calls ++ call ∷ []; next_call_id = db.next_call_id + 1 })

-- `call.update({ where: { id }, data })`: a missing row is an error (P2025).
unfoldable pub update_call : ℕ → (Call → Call) → Exec Db Call
unfolding update find
update_call id f = do
  call ← λ db. require internal (find (λ c. c.id == id) db.calls) db
  modify (λ db. record db { calls = update (λ c. c.id == id) f db.calls })
  pure (f call)

-- The order of a call, by its foreign key, and the shop of an order.
unfoldable pub order_of : ℕ → Db → Option Order
unfolding find
order_of id db = find (λ o. o.id == id) db.orders

unfoldable pub boutique_of : ℕ → Db → Option Boutique
unfolding find
boutique_of id db = find (λ b. b.id == id) db.boutiques

-- `where: { order: { boutiqueId } }`
abbrev pub in_shop : Db → ℕ → ℕ → Bool
in_shop db boutique_id order_id =
    any (λ o. o.id == order_id && o.boutique_id == boutique_id) db.orders

-- What the call policy reads of a row.
abbrev pub attempt_of : Call → CallAttempt
attempt_of c = record {
  attempt = c.attempt;
  disposition = c.disposition;
  completed_at = c.completed_at;
}

-- The calls of an order.
unfoldable pub calls_of : ℕ → Db → List Call
unfolding select
calls_of order_id db = select (λ c. c.order_id == order_id) db.calls

-- `callStartTime` and `callEndTime` of a shop.
abbrev hours : Option Boutique → Option Text × Option Text
hours none = (none, none)
hours (some b) = (b.call_start_time, b.call_end_time)

unfoldable pub call_hours : ℕ → Db → Option Text × Option Text
unfolding boutique_of
call_hours boutique_id db = hours (boutique_of boutique_id db)

-- No order has two calls that wait or run.
abbrev pub OnePending : Db → Type 0
OnePending db =
    (order_id : ℕ) → count (λ c. c.order_id == order_id && call_pending c.status) db.calls ≤ 1
