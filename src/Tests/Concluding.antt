-- ===== src/Tests/Concluding.antt =====
-- Results and transitions of the in-memory queue of level2_service/queue.py at concrete inputs.
use tonghuashun.Base.{◌≡◌, ◌≢◌, ◌⊎◌, ◌↔◌, refl, true, some, none, [], ◌∷◌, Option, String}
use tonghuashun.Dict.{get, put}
use tonghuashun.Models.{
  TaskRecord, TaskStatus, CaptureKind, capture_of, is_ready, new_task, no_source_errors,
}
use tonghuashun.Models.Metrics.{nothing_provided}
use tonghuashun.Queue.{value_error}
use tonghuashun.Queue.Results.{
  Outcome, resulted_task, with_values, complete_result, complete_capture, captured_task,
  ready_capture,
}
use tonghuashun.Queue.Results.Conclusions.{Verdict, complete_result-Verdict, complete_result-error}
use tonghuashun.Models.Public.{as_public}
use tonghuashun.Queue.Results.Captures.{complete_capture-completes}
use tonghuashun.Queue.Results.Sources.{IsSourced, complete_result-IsSourced}
use tonghuashun.Queue.Results.Transitions.{Call, run, run-final}
use tonghuashun.Queue.Position.Aliases.{Resolves, resolve_task_id-Resolves}
use tonghuashun.Queue.Position.{resolve_task_id}
use tonghuashun.Queue.Recover.{recover_running}
use tonghuashun.Queue.Recover.Restart.{Recovers, recover_running-Recovers}
use tonghuashun.Tests.{at, failed_task, two_tasks, running_task, one_running}

-- A result with all values, and with a path only if one is given.
abbrev pub given : Option String → Outcome
given path = record {
  values = λ _. some "1";
  path = path;
  ocr_metrics = λ _. true;
  source_errors = no_source_errors;
  intraday_series = nothing_provided;
  ignore_fund_source_error = true;
}

abbrev finished : TaskRecord
unfolding resulted_task new_task
finished = resulted_task (at 9) (given none) running_task

complete_result-Verdict_example :
    Verdict (at 9) (given none) finished
    × (get "a" (complete_result (at 9) "a" (given none) one_running).1.tasks ≡ some finished)
unfolding finished complete_result get
complete_result-Verdict_example =
    complete_result-Verdict (at 9) "a" (given none) one_running finished refl

complete_result-error_example :
    ((value_error ≢ value_error)
      × ((complete_result (at 9) "a" (given (some "p")) one_running).1 ≡ one_running))
    ⊎ ((value_error ≡ value_error)
        × ((task : TaskRecord) × (get "a" one_running.tasks ≡ some task)
            × ((complete_result (at 9) "a" (given (some "p")) one_running).1 ≡ record one_running {
              tasks = put "a" (with_values (given (some "p")) task) one_running.tasks;
            })))
unfolding new_task complete_result get
complete_result-error_example =
    complete_result-error (at 9) "a" (given (some "p")) one_running value_error refl

abbrev captured_one : TaskRecord
unfolding captured_task new_task
captured_one = captured_task (at 9) CaptureKind.retail_count "p" running_task

complete_capture-completes_example :
    (capture_of captured_one.captures CaptureKind.retail_count ≡ ready_capture (at 9) "p")
    × ((captured_one.status ≡ TaskStatus.completed)
        ↔ ((k : CaptureKind) → is_ready (capture_of captured_one.captures k).status ≡ true))
    × (captured_one.status ≢ TaskStatus.completed → captured_one.status ≡ TaskStatus.partial)
    × (get "a" (complete_capture (at 9) "a" CaptureKind.retail_count "p" one_running).1.tasks
        ≡ some captured_one)
unfolding captured_one complete_capture get
complete_capture-completes_example =
    complete_capture-completes (at 9) "a" CaptureKind.retail_count "p" one_running captured_one refl

abbrev start_again : Call
start_again = record { now = at 9; id = "a"; to = TaskStatus.running; code = none; errors = none }

run-final_example : get "a" (run (start_again ∷ []) two_tasks).tasks ≡ some failed_task
unfolding new_task get
run-final_example = run-final (start_again ∷ []) two_tasks "a" failed_task refl refl

resolve_task_id-Resolves_example :
    Resolves one_running.aliases "old" (resolve_task_id "old" one_running)
resolve_task_id-Resolves_example = resolve_task_id-Resolves "old" one_running

recover_running-Recovers_example :
    Recovers (get "a" one_running.tasks) (get "a" (recover_running (λ n. n) one_running).1.tasks)
unfolding new_task get
recover_running-Recovers_example =
    recover_running-Recovers (λ n. n) one_running "a" (refl, refl, (refl, refl, tt))

complete_result-IsSourced_example : IsSourced (as_public finished)
unfolding finished complete_result get
complete_result-IsSourced_example =
    complete_result-IsSourced (at 9) "a" (given none) one_running finished refl
