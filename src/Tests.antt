-- ===== src/Tests.antt =====
-- A shop, an order and its calls, on which the tests and the examples of the theorems run.
pub mod Accounts
pub mod Imports
pub mod Runtime
pub mod Outcomes
pub mod Requests
pub mod Agent
pub mod Reports
pub mod Shops
pub mod Queue
use ordely.Common.{ℕ, ◌+◌, ◌/◌, ◌%◌, Bool, true, Option, none, some, List, [], ◌∷◌}
use ordely.Common.Text.{codes}
use ordely.Store.{OrderStatus, CallStatus, Order, Call, Boutique, Db, new_call}
use ordely.Calls.Policy.{LocalClock}
use ordely.Calls.Dispatcher.{VoiceCallTask, StartTaskResult, accepted, deferred, Dispatcher}

-- Africa/Tunis, and a Thursday at 10:00 UTC, which is 11:00 there.
abbrev pub tunis : LocalClock
tunis now = ((now / 3600000 + 1) % 24, now / 60000 % 60)

abbrev pub eleven : ℕ
eleven = 36000000

abbrev pub shop : Boutique
shop = record {
  id = 1;
  name = some "Dar";
  business_phone = some "71000000";
  platform = some "shopify";
  call_languages = "ar-TN" ∷ [];
  call_start_time = some (codes "09:00");
  call_end_time = some (codes "18:00");
  confirmation_process = none;
  sector = none;
  delivery_zones = [];
  daily_order_volume = none;
  acquisition_source = none;
  carrier = none;
  onboarding_completed_at = some 1000;
  plan = some "starter";
  plan_started_at = some 2000;
  churned_at = none;
}

abbrev pub order_with : OrderStatus → Order
order_with status = record {
  id = 7;
  boutique_id = 1;
  customer = codes "Ali";
  phone = codes "22 333 444";
  total = 59000;
  status = status;
  created_at = 5000;
  items = record { product_name = codes "Lamp"; quantity = 2; unit_price = 29500 } ∷ [];
}

abbrev pub db_with : OrderStatus → List Call → Db
db_with status calls = record {
  boutiques = shop ∷ [];
  orders = order_with status ∷ [];
  calls = calls;
  next_order_id = 8;
  next_call_id = 3;
  events = [];
}

-- The first call of the order, as it waits, and once it was sent to the agent.
abbrev pub waiting : Call
waiting = new_call 2 6000 7 1

abbrev pub sent : Call
sent = record waiting {
  dispatched_at = some 7000;
  task_id = some "task";
  transport_phase = some "dispatched";
}

abbrev pub answered : Call
answered = record sent {
  status = CallStatus.confirmed;
  disposition = some "confirmed";
  completed_at = some 9000;
}

abbrev pub unanswered : Call
unanswered = record sent {
  status = CallStatus.no_answer;
  disposition = some "no_answer";
  completed_at = some 9000;
}

abbrev pub fresh : Db
fresh = db_with OrderStatus.pending []

abbrev pub calling : Db
calling = db_with OrderStatus.pending (sent ∷ [])

abbrev pub accepts : VoiceCallTask → StartTaskResult
accepts task = accepted

abbrev pub defers : VoiceCallTask → StartTaskResult
defers task = deferred

abbrev pub has_room : ℕ → Bool
has_room order_id = true

abbrev pub over : Db → Dispatcher
over db = record { db = db; active_dispatches = 0 }
