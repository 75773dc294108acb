-- ===== src/Voice/RingioAdapter.antt =====
-- backend/src/voice/adapters/ringio.adapter.ts: one agent process at a time, which this adapter
-- starts for a task and whose failure it reports. The processes that were forked stand in a list,
-- and the adapter refers to one of them; what the call servers answer and whether a fork succeeds
-- are parameters.
pub mod Reports
pub mod Capacity
use ordely.Common.{
  ℕ, ◌+◌, String, Bool, true, false, not, ◌&&◌, Option, none, some, List, [], ◌∷◌, ◌++◌,
  if◌then◌else◌, ◌==◌, ◌orelse◌, ◌ormaybe◌, is_set, holds, find, update,
}
use ordely.Common.Text.{Text, codes, text_eq}
use ordely.Calls.Dispatcher.{VoiceCallTask, StartTaskResult, accepted, deferred, rejected}

pub record Config : Type 0 where
  pub call_server_url : Option Text
  pub call_server_fallback_url : Option Text

-- What the servers answer: `/health`, `canLaunchCall` of `/api/capacity`, and the error of a fork.
pub record Runtime : Type 0 where
  pub is_healthy : Text → Bool
  pub can_launch_call : Text → Bool
  pub fork_error : Option String

-- `replace(/\/$/, '')`
unfoldable pub strip_slash : Text → Text
strip_slash [] = []
strip_slash (c ∷ []) = if c == b'/' then [] else c ∷ []
strip_slash (c ∷ d ∷ t) = c ∷ strip_slash (d ∷ t)

-- `x || d`: an empty text counts as absent.
abbrev pub set_or : Option Text → Text → Text
set_or none d = d
set_or (some []) d = d
set_or (some (c ∷ t)) d = c ∷ t

unfoldable pub server_urls : Config → List Text
unfolding strip_slash
server_urls config =
    let main = strip_slash (config.call_server_url orelse codes "http://127.0.0.1:4100") in
    let fallback =
      strip_slash (
        set_or config.call_server_fallback_url
          (codes "https://voip-ringio-prototype.vercel.app")) in
    if text_eq main fallback then main ∷ [] else main ∷ fallback ∷ []

unfoldable pub available_url : Config → Runtime → Option Text
unfolding server_urls find
available_url config runtime = find runtime.is_healthy (server_urls config)

-- A forked process: its task, its exit code once it has one, and the two flags of the closures that
-- listen to it.
pub record Worker : Type 0 where
  pub id : ℕ
  pub task_id : String
  pub exit_code : Option ℕ
  pub call_ended : Bool
  pub failure_reported : Bool

pub data Failure : Type 0 where
  could_not_start : String → Failure
  exited_with : Option ℕ → Failure

pub record Report : Type 0 where
  pub worker_id : ℕ
  pub task_id : String
  pub failure : Failure

-- The adapter, the processes it forked, the failures it reported and the signals it sent.
pub record Adapter : Type 0 where
  pub child : Option ℕ
  pub active_task_id : Option String
  pub ready_url : Option Text
  pub workers : List Worker
  pub next_worker : ℕ
  pub reports : List Report
  pub killed : List ℕ

abbrev pub has_worker : ℕ → Worker → Bool
has_worker id w = w.id == id

abbrev pub runs : Option Worker → Bool
runs none = false
runs (some w) = not (is_set w.exit_code)

abbrev pub child_of : Option ℕ → List Worker → Option Worker
child_of none workers = none
child_of (some id) workers = find (has_worker id) workers

-- `this.child && this.child.exitCode === null`
unfoldable pub is_busy : Adapter → Bool
unfolding find
is_busy s = runs (child_of s.child s.workers)

abbrev with_capacity : Runtime → Option Text → Option Text
with_capacity runtime none = none
with_capacity runtime (some url) = if runtime.can_launch_call url then some url else none

unfoldable pub check_capacity : Config → Runtime → Adapter → Bool × Adapter
unfolding available_url
check_capacity config runtime s =
    let url = with_capacity runtime (available_url config runtime) in
    (is_set url, record s { ready_url = url })

-- `this.child = child; this.activeTaskId = task.taskId`
abbrev pub fork : VoiceCallTask → Adapter → Adapter
fork task s = record s {
  child = some s.next_worker;
  active_task_id = some task.task_id;
  workers =
      s.workers
      ++ record {
        id = s.next_worker;
        task_id = task.task_id;
        exit_code = none;
        call_ended = false;
        failure_reported = false;
      }
        ∷ [];
  next_worker = s.next_worker + 1;
}

abbrev pub launch : Runtime → VoiceCallTask → Option Text → Adapter → StartTaskResult × Adapter
launch runtime task none s = (deferred, s)
launch runtime task (some url) s = elim runtime.fork_error [
  | none ↦ (accepted, fork task s)
  | some error ↦ (rejected (some error), s)
]

unfoldable pub start_task : Config → Runtime → VoiceCallTask → Adapter → StartTaskResult × Adapter
unfolding is_busy available_url
start_task config runtime task s =
    if is_busy s
    then (deferred, s)
    else launch runtime task
        (with_capacity runtime (s.ready_url ormaybe available_url config runtime))
        (record s { ready_url = none })

-- `SIGTERM`
unfoldable pub stop_task : String → Adapter → Adapter
unfolding is_busy
stop_task task_id s =
    if is_busy s && holds s.active_task_id task_id
    then record s { killed = s.killed ++ (s.child orelse 0) ∷ [] }
    else s

abbrev pub clear_child : ℕ → Adapter → Adapter
clear_child id s = elim s.child [
  | none ↦ s
  | some child ↦ if child == id then record s { child = none; active_task_id = none } else s
]

abbrev report_of : ℕ → Failure → Option Worker → Adapter → Adapter
report_of id failure none s = s
report_of id failure (some w) s = if w.failure_reported then s else record s {
  workers = update (has_worker id) (λ v. record v { failure_reported = true }) s.workers;
  reports = s.reports ++ record { worker_id = id; task_id = w.task_id; failure = failure } ∷ [];
}

-- `reportFailure`, once for each process.
unfoldable pub report_failure : ℕ → Failure → Adapter → Adapter
unfolding find update
report_failure id failure s = report_of id failure (find (has_worker id) s.workers) s

-- `on('message')` with the phase `ended`.
unfoldable pub on_ended : ℕ → Adapter → Adapter
unfolding update
on_ended id s = record s {
  workers = update (has_worker id) (λ w. record w { call_ended = true }) s.workers;
}

-- `on('error')`
unfoldable pub on_error : ℕ → String → Adapter → Adapter
unfolding report_failure
on_error id message s = clear_child id (report_failure id (could_not_start message) s)

abbrev failed_exit : Option ℕ → Option Worker → Bool
failed_exit code none = false
failed_exit code (some w) = not (is_zero code) && not w.call_ended
  where
    is_zero : Option ℕ → Bool
    is_zero none = false
    is_zero (some n) = n == 0

-- `on('exit')`: the code is absent where a signal ended the process.
unfoldable pub on_exit : ℕ → Option ℕ → Adapter → Adapter
unfolding report_failure find update
on_exit id code s =
    let left = record s {
      workers = update (has_worker id) (λ w. record w { exit_code = code }) s.workers;
    } in
    clear_child id (
      if failed_exit code (find (has_worker id) left.workers)
      then report_failure id (exited_with code) left
      else left)
