-- ===== src/Queue/Results/Captures.antt =====
-- level2_service/queue.py: when captures complete a task.
use tonghuashun.Base.{
  String, ◌≡◌, ◌≢◌, refl, true, some, arith, eq_refl, Bool-cases, Option-cases, inl, inr, ◌↔◌,
  nat_eq,
}
use tonghuashun.Dict.{get, get-put}
use tonghuashun.Models.{TaskRecord, TaskStatus, CaptureKind, capture_of, set_capture, is_ready}
use tonghuashun.Queue.{Streams, Clocks, ok, store_task}
use tonghuashun.Queue.Results.{
  accepts, taken_task, captured_task, ready_count, complete_capture, complete_capture_at,
  ready_capture,
}

ready-eq-three :
    (t : TaskRecord)
    → (nat_eq (ready_count t) 3 ≡ true)
      ↔ ((kind : CaptureKind) → is_ready (capture_of t.captures kind).status ≡ true)
unfolding ready_count capture_of
ready-eq-three t = (
  λ h. λ kind. all_ready h kind,
  λ h. ground (
    arith,
    h CaptureKind.large_order_net,
    h CaptureKind.large_order_amount,
    h CaptureKind.retail_count,
  ),
)
  where
    all_ready :
        nat_eq (ready_count t) 3 ≡ true
        → (kind : CaptureKind) → is_ready (capture_of t.captures kind).status ≡ true
    all_ready h CaptureKind.large_order_net = ground arith
    all_ready h CaptureKind.large_order_amount = ground arith
    all_ready h CaptureKind.retail_count = ground arith

shot :
    (now : Clocks) (kind : CaptureKind) (path : String) (task : TaskRecord)
    → capture_of (taken_task now kind path task).captures kind ≡ ready_capture now path
unfolding taken_task set_capture capture_of
shot now CaptureKind.large_order_net path task = refl
shot now CaptureKind.large_order_amount path task = refl
shot now CaptureKind.retail_count path task = refl

captured :
    (now : Clocks) (kind : CaptureKind) (path : String) (task : TaskRecord)
    → (capture_of (captured_task now kind path task).captures kind ≡ ready_capture now path)
      × (((captured_task now kind path task).status ≡ TaskStatus.completed) ↔ (
          (k : CaptureKind)
          → is_ready (capture_of (captured_task now kind path task).captures k).status ≡ true))
      × ((captured_task now kind path task).status ≢ TaskStatus.completed
          → (captured_task now kind path task).status ≡ TaskStatus.partial)
unfolding captured_task
captured now kind path task =
    let three = ready-eq-three (taken_task now kind path task) in
    elim (Bool-cases (nat_eq (ready_count (taken_task now kind path task)) 3)) [
      | inl y ↦
          rw (y, captured_task)
            (shot now kind path task, (λ _. three.0 y, λ _. refl), λ h. absurd (h refl))
      | inr n ↦
          rw (n, captured_task)
            (
              shot now kind path task,
              (λ h. absurd (ground arith), λ h. absurd (ground (arith, three.1 h))),
              λ _. refl,
            )
    ]

-- A successful capture makes its kind ready at the given path, is stored under the key, and completes
-- the task exactly if all three kinds are then ready; otherwise the task is partial.
pub complete_capture-completes :
    (now : Clocks) (id : String) (kind : CaptureKind) (path : String) (s : Streams) (t : TaskRecord)
    → (complete_capture now id kind path s).0 ≡ ok t
    → (capture_of t.captures kind ≡ ready_capture now path)
      × ((t.status ≡ TaskStatus.completed)
          ↔ ((k : CaptureKind) → is_ready (capture_of t.captures k).status ≡ true))
      × (t.status ≢ TaskStatus.completed → t.status ≡ TaskStatus.partial)
      × (get id (complete_capture now id kind path s).1.tasks ≡ some t)
unfolding complete_capture complete_capture_at store_task
complete_capture-completes now id kind path s t e = elim (Option-cases (get id s.tasks)) [
  | inl g ↦ absurd (ground arith)
  | inr (task, g) ↦ elim (Bool-cases (accepts task.status)) [
    | inr n ↦ absurd (ground arith)
    | inl y ↦
        let same : captured_task now kind path task ≡ t = ground arith in
        let (taken, verdict, else_partial) = captured now kind path task in
        (
          rw same at taken,
          rw same at verdict,
          rw same at else_partial,
          ground
              (arith, get-put id id (captured_task now kind path task) s.tasks, eq_refl id, same),
        )
  ]
]
