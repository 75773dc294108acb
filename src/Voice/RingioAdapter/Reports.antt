-- ===== src/Voice/RingioAdapter/Reports.antt =====
-- The failures that backend/src/voice/adapters/ringio.adapter.ts reports, whatever its processes do
-- and in whatever order.
use ordely.Common.{
  ℕ, ◌+◌, ◌≤◌, ◌<◌, ◌≡◌, refl, subst, String, Bool, true, false, ◌&&◌, Option, none, some, List, [],
  ◌∷◌, ◌++◌, arith, Bool-cases, Option-cases, inl, inr, ◌==◌, ==_self, ==_iff, find, update, count,
  All, update-All, count-append, count-update-le, find-count, find-holds, find-update,
  count-update-ge, append-Unique, none_below, append_below, count-le, ◌ormaybe◌, holds,
  if◌then◌else◌,
}
use ordely.Calls.Dispatcher.{VoiceCallTask}
use ordely.Voice.RingioAdapter.{
  Config, Runtime, Worker, Report, Failure, Adapter, has_worker, start_task, check_capacity,
  stop_task, fork, launch, clear_child, report_failure, report_of, on_ended, on_error, on_exit,
  failed_exit, is_busy, with_capacity, available_url,
}

-- What happens to the adapter: requests of the service, and events of processes.
pub data Step (s t : Adapter) : Type 0 where
  checked :
      (config : Config) (runtime : Runtime) → (check_capacity config runtime s).1 ≡ t → Step s t
  started :
      (config : Config) (runtime : Runtime) (task : VoiceCallTask)
      → (start_task config runtime task s).1 ≡ t
      → Step s t
  stopped : (task_id : String) → stop_task task_id s ≡ t → Step s t
  ended : (id : ℕ) → on_ended id s ≡ t → Step s t
  failed : (id : ℕ) (message : String) → on_error id message s ≡ t → Step s t
  exited : (id : ℕ) (code : Option ℕ) → on_exit id code s ≡ t → Step s t

pub data Runs : Adapter → Adapter → Type 0 where
  stay : (s : Adapter) → Runs s s
  go : (s t u : Adapter) → Step s t → Runs t u → Runs s u

abbrev pub reports_of : ℕ → Report → Bool
reports_of id r = r.worker_id == id

abbrev flagged : ℕ → Worker → Bool
flagged id w = w.id == id && w.failure_reported

-- No more reports than processes with the flag, and process numbers are not used twice.
pub record IsTold (s : Adapter) : Type 0 where
  pub told : (id : ℕ) → count (reports_of id) s.reports ≤ count (flagged id) s.workers
  pub ids : (id : ℕ) → count (has_worker id) s.workers ≤ 1
  pub below : All (λ w. w.id < s.next_worker) s.workers

-- A write on a process that keeps its number and its flag.
update-IsTold :
    (id : ℕ) (f : Worker → Worker) (s : Adapter)
    → ((w : Worker) → (f w).id ≡ w.id)
    → ((w : Worker) → (f w).failure_reported ≡ w.failure_reported)
    → IsTold s
    → IsTold (record s { workers = update (has_worker id) f s.workers })
update-IsTold id f s same flag told = record {
  told = λ i. omega (
    arith,
    told.told i,
    count-update-ge (flagged i) (has_worker id) f s.workers
        (λ w e h. ground (arith, same w, flag w)),
  );
  ids = λ i. omega (
    arith,
    told.ids i,
    count-update-le (has_worker i) (has_worker id) f s.workers (λ w e h. rw (← same w) h),
  );
  below =
      update-All (λ w. w.id < s.next_worker) (has_worker id) f s.workers (λ w e h. rw (same w) h)
        told.below;
}

clear_child-IsTold : (id : ℕ) (s : Adapter) → IsTold s → IsTold (clear_child id s)
clear_child-IsTold id s told = elim (Option-cases s.child) [
  | inl idle ↦ rw (clear_child, idle) told
  | inr (child, mine) ↦ elim (Bool-cases (child == id)) [
    | inl e ↦
        rw (clear_child, mine, e) (record { told = told.told; ids = told.ids; below = told.below })
    | inr e ↦ rw (clear_child, mine, e) told
  ]
]

abbrev flag_up : Worker → Worker
flag_up w = record w { failure_reported = true }

-- Setting the flag of a process makes room for one report on it.
flag_counts :
    (id : ℕ) (workers : List Worker) {w : Worker}
    → count (has_worker id) workers ≤ 1
    → find (has_worker id) workers ≡ some w
    → w.failure_reported ≡ false
    → count (flagged id) workers + 1 ≤ count (flagged id) (update (has_worker id) flag_up workers)
flag_counts id workers {w} one found silent =
    let own : (w.id == id) ≡ true = find-holds (has_worker id) workers found in
    let silent_before : count (flagged id) workers ≡ 0 =
      ground
        (arith, find-count (has_worker id) (λ v. v.failure_reported) workers {r = w} found one) in
    let found_after : find (has_worker id) (update (has_worker id) flag_up workers)
        ≡ some (flag_up w) =
      rw (find-update (has_worker id) (has_worker id) flag_up workers (λ v. refl), found, own)
        refl in
    let one_after : count (has_worker id) (update (has_worker id) flag_up workers) ≤ 1 =
      omega (
        arith,
        one,
        count-update-le (has_worker id) (has_worker id) flag_up workers (λ v e h. h),
      ) in
    omega (
      arith,
      silent_before,
      find-count (has_worker id) (λ v. v.failure_reported) (update (has_worker id) flag_up workers)
          {r = flag_up w} found_after one_after,
    )

report_added :
    (i : ℕ) (reports : List Report) (r : Report)
    → count (reports_of i) (reports ++ r ∷ [])
      ≡ count (reports_of i) reports + (if r.worker_id == i then 1 else 0)
unfolding count
report_added i reports r = ground (arith, count-append (reports_of i) reports (r ∷ []))

report_failure-IsTold :
    (id : ℕ) (failure : Failure) (s : Adapter) → IsTold s → IsTold (report_failure id failure s)
unfolding report_failure
report_failure-IsTold id failure s told = elim (Option-cases (find (has_worker id) s.workers)) [
  | inl unknown ↦ rw (unknown, report_of) told
  | inr (w, found) ↦ elim (Bool-cases w.failure_reported) [
    | inl again ↦ rw (found, report_of, again) told
    | inr first ↦
        rw (found, report_of, first)
          (record {
            told = λ i. elim (Bool-cases (id == i)) [
              | inl e ↦
                  let same : id ≡ i = (==_iff id i).0 e in
                  rw (← same) (
                    ground (
                      arith,
                      told.told id,
                      flag_counts id s.workers {w = w} (told.ids id) found first,
                      report_added id s.reports
                          (record { worker_id = id; task_id = w.task_id; failure = failure }),
                      ==_self id,
                    ))
              | inr e ↦ ground (
                arith,
                told.told i,
                report_added i s.reports
                    (record { worker_id = id; task_id = w.task_id; failure = failure }),
                e,
                count-update-ge (flagged i) (has_worker id) flag_up s.workers
                    (λ v e h. ground arith),
              )
            ];
            ids = λ i. omega (
              arith,
              told.ids i,
              count-update-le (has_worker i) (has_worker id) flag_up s.workers (λ v e h. h),
            );
            below =
                update-All (λ v. v.id < s.next_worker) (has_worker id) flag_up s.workers
                  (λ v e h. h) told.below;
          })
  ]
]

fork-IsTold : (task : VoiceCallTask) (s : Adapter) → IsTold s → IsTold (fork task s)
unfolding count
fork-IsTold task s told =
    let new : Worker = record {
      id = s.next_worker;
      task_id = task.task_id;
      exit_code = none;
      call_ended = false;
      failure_reported = false;
    } in
    record {
      told = λ i. omega (arith, told.told i, count-append (flagged i) s.workers (new ∷ []));
      ids = λ i.
          append-Unique (has_worker i) s.workers new (told.ids i)
            (λ h. none_below (λ w. w.id) s.workers s.next_worker told.below i (ground arith));
      below = append_below (λ w. w.id) s.workers s.next_worker new refl told.below;
    }

start_task-IsTold :
    (config : Config) (runtime : Runtime) (task : VoiceCallTask) (s : Adapter)
    → IsTold s
    → IsTold (start_task config runtime task s).1
unfolding start_task
start_task-IsTold config runtime task s told =
    let idle : IsTold (record s { ready_url = none }) = record {
      told = told.told;
      ids = told.ids;
      below = told.below;
    } in
    elim (Bool-cases (is_busy s)) [
      | inl busy ↦ rw busy told
      | inr free ↦
          elim (Option-cases
            (with_capacity runtime (s.ready_url ormaybe available_url config runtime))) [
              | inl nowhere ↦ rw (free, nowhere) idle
              | inr (url, there) ↦ elim (Option-cases runtime.fork_error) [
                | inl forked ↦
                    rw (free, there, launch, forked)
                      (fork-IsTold task (record s { ready_url = none }) idle)
                | inr (error, failing) ↦ rw (free, there, launch, failing) idle
              ]
            ]
    ]

Step-IsTold : (s t : Adapter) → Step s t → IsTold s → IsTold t
unfolding check_capacity stop_task on_ended on_error on_exit
Step-IsTold s t (Step.checked config runtime e) told =
    subst IsTold e (record { told = told.told; ids = told.ids; below = told.below })
Step-IsTold s t (Step.started config runtime task e) told =
    subst IsTold e (start_task-IsTold config runtime task s told)
Step-IsTold s t (Step.stopped task_id e) told =
    subst IsTold e (elim (Bool-cases (is_busy s && holds s.active_task_id task_id)) [
      | inl kill ↦ rw kill (record { told = told.told; ids = told.ids; below = told.below })
      | inr nothing ↦ rw nothing told
    ])
Step-IsTold s t (Step.ended id e) told =
    subst IsTold e (update-IsTold id _ s (λ w. refl) (λ w. refl) told)
Step-IsTold s t (Step.failed id message e) told =
    subst IsTold e (clear_child-IsTold id _ (report_failure-IsTold id _ s told))
Step-IsTold s t (Step.exited id code e) told =
    let f : Worker → Worker = λ w. record w { exit_code = code } in
    let left : Adapter = record s { workers = update (has_worker id) f s.workers } in
    let kept = update-IsTold id f s (λ w. refl) (λ w. refl) told in
    elim (Bool-cases (failed_exit code (find (has_worker id) left.workers))) [
      | inl fails ↦
          subst IsTold e (rw fails (clear_child-IsTold id _ (report_failure-IsTold id _ left kept)))
      | inr fine ↦ subst IsTold e (rw fine (clear_child-IsTold id left kept))
    ]

-- Whatever requests come and whatever the processes do, in any order, at most one failure is
-- reported for each process that was started: from an adapter that has started none.
pub Runs-reports :
    (s t : Adapter) → Runs s t → IsTold s → (id : ℕ) → count (reports_of id) t.reports ≤ 1
Runs-reports s t (Runs.stay _) told id = omega (
  arith,
  told.told id,
  told.ids id,
  count-le (flagged id) (has_worker id) s.workers (λ w h. ground arith),
)
Runs-reports s t (Runs.go _ m _ step rest) told id =
    Runs-reports m t rest (Step-IsTold s m step told) id
