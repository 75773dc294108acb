-- ===== src/Calls/Dispatcher.antt =====
-- backend/src/calls/orchestration/call-dispatcher.service.ts: handing one pending call to the voice
-- agent. The agent behind `VoiceAgentClient` and `randomUUID` are parameters.
pub mod Effects
use ordely.Common.{
  ℕ, zero, suc, ◌+◌, ◌-◌, String, Bool, true, false, not, ◌&&◌, ◌||◌, Option, none, some, List, [],
  ◌∷◌, ◌++◌, if◌then◌else◌, leb, ◌==◌, holds, truthy, is_set, ◌orelse◌, Exec, Result, ok, err,
  demand, refuse, gets, modify, pure, ◌>>=◌, ◌>>◌, not_found, conflict, find, update,
}
use ordely.Common.Text.{Text, codes}
use ordely.Voice.Rules.{is_empty, is_space, decimal}
use ordely.Store.{
  CallStatus, Order, Item, Call, Boutique, Db, call_pending, in_shop, order_of, boutique_of,
  call_hours, update_call,
}
use ordely.Calls.Policy.{LocalClock, is_within_call_window}

-- The task of backend/src/voice/voice.types.ts. Its printed total and the wording of its
-- instructions are left out.
pub record VoiceCallTask : Type 0 where
  pub task_id : String
  pub call_id : ℕ
  pub boutique_id : ℕ
  pub destination : Text
  pub order_id : ℕ
  pub customer : Text
  pub item : Text
  pub quantity : ℕ
  pub total : ℕ
  pub language : String
  pub boutique_name : Option String
  pub confirmation_process : Option String

-- What `startTask` answers; an exception that it throws counts as a rejection.
pub data StartTaskResult : Type 0 where
  accepted deferred : StartTaskResult
  rejected : Option String → StartTaskResult

-- `replace(/[\s().-]/g, '')`
abbrev is_separator : ℕ → Bool
is_separator c = is_space c || c == b'(' || c == b')' || c == b'.' || c == b'-'

unfoldable pub strip_phone : Text → Text
unfolding is_space
strip_phone [] = []
strip_phone (c ∷ t) = let rest = strip_phone t in if is_separator c then rest else c ∷ rest

unfoldable pub destination_of : Text → Text
unfolding strip_phone
destination_of phone =
    let number = strip_phone phone in if is_empty number then codes "+21699000000" else number

abbrev item_text : Item → Text
item_text i = i.product_name ++ codes " x" ++ decimal i.quantity

-- `map(...).join(', ')`
unfoldable pub items_text : List Item → Text
unfolding decimal
items_text [] = []
items_text (i ∷ []) = item_text i
items_text (i ∷ j ∷ items) = item_text i ++ codes ", " ++ items_text (j ∷ items)

unfoldable pub total_quantity : List Item → ℕ
total_quantity [] = 0
total_quantity (i ∷ items) = i.quantity + total_quantity items

abbrev first_language : Option Boutique → Option String
first_language none = none
first_language (some b) = elim b.call_languages [ [] ↦ none | l ∷ ls ↦ truthy (some l) ]

abbrev preferred_language : Call → Option Boutique → String
preferred_language call shop = truthy call.language orelse first_language shop orelse "ar-TN"

unfoldable pub task_for : String → ℕ → Call → Order → Option Boutique → VoiceCallTask
unfolding destination_of items_text total_quantity
task_for task_id boutique_id call order shop = record {
  task_id = task_id;
  call_id = call.id;
  boutique_id = boutique_id;
  destination = destination_of order.phone;
  order_id = order.id;
  customer = order.customer;
  item = items_text order.items;
  quantity = total_quantity order.items;
  total = order.total;
  language = preferred_language call shop;
  boutique_name = elim shop [ none ↦ none | some b ↦ b.name ];
  confirmation_process = elim shop [ none ↦ none | some b ↦ b.confirmation_process ];
}

-- The service: its counter of dispatches under way, over the database.
pub record Dispatcher : Type 0 where
  pub db : Db
  pub active_dispatches : ℕ

abbrev pub max_concurrency : ℕ
max_concurrency = 1

pub data Dispatched : Type 0 where
  outside_call_window capacity_unavailable : Call → Dispatched
  recorded : Call → Dispatched

abbrev pub callable : Db → ℕ → ℕ → Call → Bool
callable db boutique_id id c = c.id == id && in_shop db boutique_id c.order_id

abbrev pub mark_dispatched : String → ℕ → Call → Call
mark_dispatched task_id now c = record c {
  task_id = some task_id;
  dispatched_at = some now;
  transport_phase = some "dispatched";
  failure_reason = none;
}

abbrev pub mark_rejected : String → ℕ → Option String → Call → Call
mark_rejected task_id now error c = record c {
  task_id = some task_id;
  status = CallStatus.failed;
  disposition = some "error";
  completed_at = some now;
  transport_phase = some "rejected";
  failure_reason = some (truthy error orelse "Voice agent rejected task");
}

abbrev pub record_answer : String → ℕ → Call → StartTaskResult → Exec Db Dispatched
record_answer task_id now call deferred = pure (capacity_unavailable call)
record_answer task_id now call accepted = do
  written ← update_call call.id (mark_dispatched task_id now)
  pure (recorded written)
record_answer task_id now call (rejected error) = do
  written ← update_call call.id (mark_rejected task_id now error)
  pure (recorded written)

module _ (clock : LocalClock) (now : ℕ) (uuid : String)
    (start_task : VoiceCallTask → StartTaskResult) where
  abbrev hand_over : ℕ → Call → Order → Exec Db Dispatched
  hand_over boutique_id call order db =
      record_answer uuid now call
        (start_task (task_for uuid boutique_id call order (boutique_of order.boutique_id db))) db

  abbrev if_open : ℕ → Call → Order → Bool → Exec Db Dispatched
  if_open boutique_id call order true = hand_over boutique_id call order
  if_open boutique_id call order false = pure (outside_call_window call)

  abbrev pub shop_open : Order → Db → Bool
  shop_open order db =
      let (start, end) = call_hours order.boutique_id db in
      is_within_call_window clock start end now

  -- The body of the `try`. The order of a call exists by the foreign key.
  unfoldable pub dispatch_body : ℕ → ℕ → Exec Db Dispatched
  dispatch_body boutique_id call_id = do
    call ← demand not_found (λ db. find (callable db boutique_id call_id) db.calls)
    order ← demand not_found (order_of call.order_id)
    refuse (not (call_pending call.status)) conflict
    refuse (is_set (truthy call.task_id) && holds call.transport_phase "dispatched") conflict
    open_shop ← gets (shop_open order)
    if_open boutique_id call order open_shop

  -- `finally { this.activeDispatches-- }`; the counter was raised before.
  abbrev release : ℕ → Result Dispatched × Db → Result Dispatched × Dispatcher
  release active (r, db) = (r, record { db = db; active_dispatches = active - 1 })

  unfoldable pub dispatch_call : ℕ → ℕ → Exec Dispatcher Dispatched
  dispatch_call boutique_id call_id d =
      if leb max_concurrency d.active_dispatches
      then (err conflict, d)
      else release (d.active_dispatches + 1) (dispatch_body boutique_id call_id d.db)
