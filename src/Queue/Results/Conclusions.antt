-- ===== src/Queue/Results/Conclusions.antt =====
-- level2_service/queue.py: the status and the error code that results give a task.
use tonghuashun.Base.{
  String, ◌≡◌, ◌≢◌, refl, subst, Bool, true, Option, none, some, List, [], ◌∷◌, arith, eq_refl,
  if◌then◌else◌, Bool-cases, Option-cases, ◌⊎◌, inl, inr, ◌↔◌, All, all, is_some,
}
use tonghuashun.Dict.{get, put, get-put}
use tonghuashun.Models.{TaskRecord, TaskStatus}
use tonghuashun.Models.Metrics.{MetricKind, required_metrics}
use tonghuashun.Queue.{Streams, Clocks, ok, err, QueueError, value_error, store_task}
use tonghuashun.Queue.Results.{
  Outcome, accepts, complete_result, complete_result_at, resulted_task, with_values,
  with_long_capture, concluded, required_complete, wrong_path,
}

all_iff : {A : Type 0} (p : A → Bool) (xs : List A) → (all p xs ≡ true) ↔ All (λ x. p x ≡ true) xs
all_iff p [] = (λ _. tt, λ _. refl)
all_iff p (x ∷ xs) = (
  λ h. (ground arith, (all_iff p xs).0 (ground arith)),
  λ h. ground (arith, h.0, (all_iff p xs).1 h.1),
)

-- Every required metric has a value.
abbrev pub HasRequired : (MetricKind → Option String) → Type 0
HasRequired values = All (λ kind. is_some (values kind) ≡ true) required_metrics

-- A result without an error of the fund-flow source that counts.
abbrev pub NoFundError : Outcome → Type 0
NoFundError o = (o.ignore_fund_source_error ≡ true) ⊎ (o.source_errors.main_fund_flow ≡ none)

-- The verdict on a task that a result has reached.
pub record Verdict (now : Clocks) (o : Outcome) (t : TaskRecord) : Type 0 where
  pub complete : (t.status ≡ TaskStatus.completed) ↔ (HasRequired o.values × NoFundError o)
  pub else_partial : t.status ≢ TaskStatus.completed → t.status ≡ TaskStatus.partial
  pub code : (t.error_code ≡ none) ↔ (t.status ≡ TaskStatus.completed)
  pub values : t.values ≡ o.values
  pub times : (t.completed_at ≡ some now.utc) × (t.collected_at ≡ some now.utc)

-- with_long_capture leaves the values and the source errors as they are.
values-with_long_capture :
    (now : Clocks) (path : Option String) (task : TaskRecord)
    → (with_long_capture now path task).values ≡ task.values
unfolding with_long_capture
values-with_long_capture now none task = refl
values-with_long_capture now (some p) task = refl

errors-with_long_capture :
    (now : Clocks) (path : Option String) (task : TaskRecord)
    → (with_long_capture now path task).source_errors ≡ task.source_errors
unfolding with_long_capture
errors-with_long_capture now none task = refl
errors-with_long_capture now (some p) task = refl

required_complete_iff :
    (values : MetricKind → Option String) (t : TaskRecord)
    → t.values ≡ values
    → (required_complete t ≡ true) ↔ HasRequired values
unfolding required_complete
required_complete_iff values t e = rw e (all_iff (λ kind. is_some (values kind)) required_metrics)

-- The error of the fund-flow source that counts.
abbrev fund_error : Outcome → Option String
fund_error o = if o.ignore_fund_source_error then none else o.source_errors.main_fund_flow

fund_error-none : (o : Outcome) → (fund_error o ≡ none) ↔ NoFundError o
fund_error-none o = (
  λ h. elim (Bool-cases o.ignore_fund_source_error) [ inl i ↦ inl i | inr n ↦ inr (ground arith) ],
  λ h. ground arith,
)

concluded-Verdict :
    (now : Clocks) (o : Outcome) (t : TaskRecord)
    → t.values ≡ o.values
    → t.source_errors ≡ o.source_errors
    → Verdict now o (concluded now o.ignore_fund_source_error t)
unfolding concluded
concluded-Verdict now o t ev es =
    let req = required_complete_iff o.values t ev in
    let fund = fund_error-none o in
    elim (Bool-cases (required_complete t)) [
      | inl c ↦ elim (Option-cases (fund_error o)) [
        | inl n ↦ record {
          complete = (λ _. (req.0 c, fund.0 n), λ _. ground arith);
          else_partial = λ h. ground arith;
          code = (λ _. ground arith, λ _. ground arith);
          values = ev;
          times = (refl, refl);
        }
        | inr (m, y) ↦ record {
          complete = (λ h. absurd (ground arith), λ h. absurd (ground (arith, fund.1 h.1)));
          else_partial = λ h. ground arith;
          code = (λ h. absurd (ground arith), λ h. absurd (ground arith));
          values = ev;
          times = (refl, refl);
        }
      ]
      | inr n ↦ record {
        complete = (λ h. absurd (ground arith), λ h. absurd (ground (arith, req.1 h.0)));
        else_partial = λ h. ground arith;
        code = (λ h. absurd (ground arith), λ h. absurd (ground arith));
        values = ev;
        times = (refl, refl);
      }
    ]

-- A successful result completes its task exactly if every required metric has a value and no error
-- of the fund-flow source counts; otherwise the task is partial. The error code is absent exactly
-- on a completed task, the values are the given ones, the times are those of the call, and the
-- returned task is the one in the store.
pub complete_result-Verdict :
    (now : Clocks) (id : String) (o : Outcome) (s : Streams) (t : TaskRecord)
    → (complete_result now id o s).0 ≡ ok t
    → Verdict now o t × (get id (complete_result now id o s).1.tasks ≡ some t)
unfolding complete_result complete_result_at resulted_task store_task with_values
complete_result-Verdict now id o s t e = elim (Option-cases (get id s.tasks)) [
  | inl g ↦ absurd (ground arith)
  | inr (task, g) ↦ elim (Bool-cases (accepts task.status)) [
    | inr n ↦ absurd (ground arith)
    | inl y ↦ elim (Bool-cases (wrong_path task.include_long_capture o.path)) [
      | inl w ↦ absurd (ground arith)
      | inr r ↦
          let same : resulted_task now o task ≡ t = ground arith in
          (
            subst (Verdict now o) same (
                concluded-Verdict now o (with_long_capture now o.path (with_values o task))
                  (values-with_long_capture now o.path (with_values o task))
                  (errors-with_long_capture now o.path (with_values o task))),
            ground (arith, get-put id id (resulted_task now o task) s.tasks, eq_refl id, same),
          )
    ]
  ]
]

-- A result that is refused changes no status and no capture of any task and not the queue: on a
-- wrong status or a missing task the store stays as it is, and on a wrong path only the task under
-- the key differs, by the values, sources, series and source errors that were assigned before.
pub complete_result-error :
    (now : Clocks) (id : String) (o : Outcome) (s : Streams) (e : QueueError)
    → (complete_result now id o s).0 ≡ err e
    → ((e ≢ value_error) × ((complete_result now id o s).1 ≡ s))
      ⊎ ((e ≡ value_error)
          × ((task : TaskRecord) × (get id s.tasks ≡ some task)
              × ((complete_result now id o s).1
                  ≡ record s { tasks = put id (with_values o task) s.tasks })))
unfolding complete_result complete_result_at
complete_result-error now id o s e h = elim (Option-cases (get id s.tasks)) [
  | inl g ↦ inl (ground arith, rw (g, complete_result))
  | inr (task, g) ↦ elim (Bool-cases (accepts task.status)) [
    | inr n ↦ inl (ground arith, rw (g, complete_result, n))
    | inl y ↦ elim (Bool-cases (wrong_path task.include_long_capture o.path)) [
      | inl w ↦ inr (ground arith, (task, g, rw (g, complete_result, y, w)))
      | inr r ↦ absurd (ground arith)
    ]
  ]
]
