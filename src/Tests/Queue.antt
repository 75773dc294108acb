-- ===== src/Tests/Queue.antt =====
-- Examples of the theorems on the Ringio queue, on removed orders and on CSV lines.
use ordely.Common.{
  ◌≤◌, ◌≡◌, ◌≢◌, refl, none, [], ◌∷◌, arith, ok, result, count, find, select, update,
}
use ordely.Common.Text.{codes}
use ordely.Store.{OrderStatus, Db, order_of, call_hours, boutique_of}
use ordely.Voice.Rules.{within_call_hours, parse_hhmm}
use ordely.Voice.VoiceDispatcher.{
  Sent, Pass, Task, in_flight, expire_stale, next_call, run_pass, claim_call, put_back, task_of,
}
use ordely.Voice.VoiceDispatcher.Queue.{CallsKeyed, run_pass-in_flight, run_pass_not_taken}
use ordely.Orders.{remove, own_order}
use ordely.Orders.Csv.{csv_line, parse_csv_line}
use ordely.Orders.Csv.Lines.{parse_csv_line-csv_line}
use ordely.Tests.{eleven, db_with, waiting, calling}

abbrev queued : Db
queued = db_with OrderStatus.pending (waiting ∷ [])

abbrev takes : Task → Sent
takes task = Sent.started

abbrev is_busy : Task → Sent
is_busy task = Sent.busy

keyed : CallsKeyed queued
unfolding count
keyed id = ground arith

none_sent : count in_flight queued.calls ≤ 1
unfolding count
none_sent = omega arith

run_pass-in_flight_example : count in_flight (run_pass takes none 600000 eleven queued).1.calls ≤ 1
run_pass-in_flight_example = run_pass-in_flight takes none 600000 eleven queued keyed none_sent

is_kept : (run_pass is_busy none 600000 eleven queued).0 ≡ Pass.busy
unfolding run_pass expire_stale update count next_call find select order_of call_hours boutique_of
    within_call_hours parse_hhmm claim_call put_back task_of
is_kept = refl

not_sent : (run_pass is_busy none 600000 eleven queued).0 ≢ Pass.dispatched
not_sent h = absurd (cc is_kept)

run_pass_not_taken_example :
    (run_pass is_busy none 600000 eleven queued).1 ≡ expire_stale 600000 eleven queued
run_pass_not_taken_example = run_pass_not_taken is_busy none 600000 eleven queued not_sent

removes : result (remove 1 7) calling ≡ ok tt
unfolding remove count
removes = refl

not_own : count (own_order 2 7) calling.orders ≡ 0
unfolding count
not_own = refl

parse_csv_line-csv_line_example :
    parse_csv_line (csv_line (codes "=1+1" ∷ codes "a,b" ∷ []))
    ≡ codes "'=1+1" ∷ codes "a,b" ∷ [] ∷ []
parse_csv_line-csv_line_example = parse_csv_line-csv_line (codes "=1+1") (codes "a,b" ∷ [])
