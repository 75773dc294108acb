-- ===== src/Tests/Runtime.antt =====
-- Examples of the theorems on the agent's processes, on the transcripts that they save, and on the
-- rooms of the shops.
use ordely.Common.{ok, length, ◌↔◌, ◌≡◌, ◌≤◌, refl, true, none, some, [], arith, find, count, final}
use ordely.Common.Text.{Text, codes}
use ordely.Voice.Rules.{Speaker}
use ordely.Calls.Dispatcher.{VoiceCallTask, dispatch_call}
use ordely.Voice.RingioAdapter.{
  Config, Runtime, Adapter, start_task, on_exit, on_error, is_busy, available_url, server_urls,
  strip_slash, fork,
}
use ordely.Voice.RingioAdapter.Reports.{Step, Runs, IsTold, reports_of, Runs-reports}
use ordely.Voice.RingioAdapter.Capacity.{dispatch_call_busy}
use ordely.Voice.Artifacts.{Entry, upsert_entry, lines_of}
use ordely.Voice.Artifacts.Transcripts.{lines_of-upsert_entry}
use ordely.Auth.Guard.{can_activate, bearer, first_piece, after_space}
use ordely.Auth.Gateway.{
  Handshake, handle_connection, token_of, bearer_token, room_of, shop_of,
  handle_connection-can_activate, unverified_route,
}
use ordely.Voice.Guards.{voice_callback_guard, voice_callback_guard_iff}
use ordely.Tests.{tunis, eleven, calling, over}
use ordely.Tests.Accounts.{lib, ali_db}

abbrev config : Config
config = record { call_server_url = none; call_server_fallback_url = none }

abbrev runtime : Runtime
runtime = record { is_healthy = λ url. true; can_launch_call = λ url. true; fork_error = none }

abbrev idle : Adapter
idle = record {
  child = none;
  active_task_id = none;
  ready_url = none;
  workers = [];
  next_worker = 0;
  reports = [];
  killed = [];
}

abbrev task : VoiceCallTask
task = record {
  task_id = "task";
  call_id = 2;
  boutique_id = 1;
  destination = codes "22333444";
  order_id = 7;
  customer = codes "Ali";
  item = codes "Lamp";
  quantity = 2;
  total = 59000;
  language = "ar-TN";
  boutique_name = none;
  confirmation_process = none;
}

abbrev running : Adapter
running = fork task idle

abbrev failed_once : Adapter
failed_once = on_error 0 "spawn" running

abbrev failed_twice : Adapter
failed_twice = on_exit 0 (some 1) failed_once

none-IsTold : IsTold idle
unfolding count
none-IsTold = record { told = λ id. omega arith; ids = λ id. omega arith; below = tt }

started_running : (start_task config runtime task idle).1 ≡ running
unfolding start_task is_busy available_url server_urls strip_slash find
started_running = refl

-- A process that cannot be started and then exits with an error is reported once.
Runs-reports_example : count (reports_of 0) failed_twice.reports ≤ 1
Runs-reports_example =
    Runs-reports idle failed_twice
      (Runs.go idle running failed_twice (Step.started config runtime task started_running) (
        Runs.go running failed_once failed_twice (Step.failed 0 "spawn" refl) (
          Runs.go failed_once failed_twice failed_twice (Step.exited 0 (some 1) refl)
            (Runs.stay failed_twice))))
      none-IsTold 0

running_busy : is_busy running ≡ true
unfolding is_busy find
running_busy = refl

dispatch_call_busy_example :
    final
      (dispatch_call tunis eleven "task" (λ t. (start_task config runtime t running).0) 1 2)
      (over calling)
    ≡ over calling
dispatch_call_busy_example =
    dispatch_call_busy config runtime running tunis eleven "task" 1 2 (over calling) running_busy

abbrev hello : Entry
hello = record {
  call_id = 2;
  sequence = 1;
  speaker = Speaker.agent;
  text = codes "Allo";
  timestamp = 7000;
}

abbrev answer : Entry
answer = record {
  call_id = 2;
  sequence = 2;
  speaker = Speaker.customer;
  text = codes "Oui";
  timestamp = 8000;
}

lines_of-upsert_entry_example :
    lines_of 2 (upsert_entry hello (upsert_entry answer []))
    ≡ lines_of 2 (upsert_entry answer (upsert_entry hello []))
lines_of-upsert_entry_example = lines_of-upsert_entry answer hello 2 [] (λ h. omega arith)

abbrev handshake : Handshake
handshake = record { auth_token = some (codes "jwt"); authorization = none; query_token = none }

same_token : token_of handshake ≡ bearer (some (codes "Bearer jwt"))
unfolding token_of bearer_token bearer first_piece after_space
same_token = refl

handle_connection-can_activate_example :
    room_of (handle_connection lib 3700000 handshake ali_db)
    ≡ shop_of (can_activate lib 3700000 unverified_route (some (codes "Bearer jwt")) ali_db)
handle_connection-can_activate_example =
    handle_connection-can_activate lib 3700000 handshake (some (codes "Bearer jwt")) ali_db
      same_token

abbrev secret : Text
secret = codes "a-secret-of-the-agent"

voice_callback_guard_iff_example :
    (voice_callback_guard (λ t. t) (some secret) (some (codes "Bearer a-secret-of-the-agent"))
      ≡ ok true)
    ↔ ((16 ≤ length secret) × (bearer (some (codes "Bearer a-secret-of-the-agent")) ≡ some secret))
voice_callback_guard_iff_example =
    voice_callback_guard_iff (λ t. t) secret (some (codes "Bearer a-secret-of-the-agent"))
      (λ token e. e)
