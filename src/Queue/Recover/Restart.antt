-- ===== src/Queue/Recover/Restart.antt =====
-- level2_service/queue.py: the store before and after recover_running.
use tonghuashun.Base.{
  ℕ, ◌+◌, String, ◌≡◌, ◌≢◌, refl, sym, ap, ◌∙◌, subst, true, false, ◌||◌, Option, none, some, List,
  [], ◌∷◌, arith, ◌==◌, eq_iff, if◌then◌else◌, leb, Bool-cases, Option-cases, ◌⊎◌, inl, inr, keep,
  contains, All, All-keep,
}
use tonghuashun.Dict.{Dict, get, values}
use tonghuashun.Models.{TaskRecord, TaskStatus}
use tonghuashun.Queue.{Streams, store_task}
use tonghuashun.Queue.Keyed.{IsKeyed, get-values}
use tonghuashun.Queue.Submit.Outcome.{get-store_task}
use tonghuashun.Queue.Recover.{
  recover_task, insert_by_created, sort_by_created, recover_each, is_running, recover_running,
}

-- What becomes of a place of the store, by the code of the loop.
abbrev RecoversBy : Option TaskRecord → Option TaskRecord → Type 0
RecoversBy before after =
    ((after ≡ before) × ((t : TaskRecord) → before ≡ some t → is_running t ≡ false))
    ⊎ ((t : TaskRecord) × (utc : ℕ) × (before ≡ some t)
        × (is_running t ≡ true)
        × (after ≡ some (recover_task utc t)))

abbrev ids : List TaskRecord → List String
ids [] = []
ids (t ∷ ts) = t.task_id ∷ ids ts

contains-insert :
    (j : String) (t : TaskRecord) (ts : List TaskRecord)
    → contains j (ids (insert_by_created t ts)) ≡ (t.task_id == j || contains j (ids ts))
unfolding insert_by_created
contains-insert j t [] = refl
contains-insert j t (x ∷ xs) = ground (arith, contains-insert j t xs)

contains-sort :
    (j : String) (ts : List TaskRecord)
    → contains j (ids (sort_by_created ts)) ≡ contains j (ids ts)
unfolding sort_by_created
contains-sort j [] = refl
contains-sort j (t ∷ ts) =
    contains-insert j t (sort_by_created ts) ∙ ap (λ b. t.task_id == j || b) (contains-sort j ts)

module _ {κ} (P : TaskRecord → Type κ) where
  All-insert :
      (t : TaskRecord) (ts : List TaskRecord) → P t → All P ts → All P (insert_by_created t ts)
  unfolding insert_by_created
  All-insert t [] p h = (p, tt)
  All-insert t (x ∷ xs) p h = elim (Bool-cases (leb t.created_at x.created_at)) [
    | inl e ↦ rw e (p, h)
    | inr e ↦ rw e (h.0, All-insert t xs p h.1)
  ]

  All-sort : (ts : List TaskRecord) → All P ts → All P (sort_by_created ts)
  unfolding sort_by_created
  All-sort [] h = tt
  All-sort (t ∷ ts) h = All-insert t (sort_by_created ts) h.0 (All-sort ts h.1)

-- The place still holds its task, or the task has been put back.
abbrev Between : Option TaskRecord → Option TaskRecord → Type 0
Between before now =
    (now ≡ before)
    ⊎ ((t : TaskRecord) × (utc : ℕ) × (before ≡ some t)
        × (is_running t ≡ true)
        × (now ≡ some (recover_task utc t)))

-- A running task at its place in a store.
abbrev RunsAt : Dict TaskRecord → TaskRecord → Type 0
RunsAt tasks t = (get t.task_id tasks ≡ some t) × (is_running t ≡ true)

recover_each-RecoversBy :
    (utc : ℕ → ℕ) (n : ℕ) (ts : List TaskRecord) (tasks : Dict TaskRecord) (s : Streams)
    (j : String)
    → All (RunsAt tasks) ts
    → Between (get j tasks) (get j s.tasks)
    → ((t : TaskRecord)
        → get j tasks ≡ some t
        → is_running t ≡ true
        → contains j (ids ts) ≡ false
        → (u : ℕ) × (get j s.tasks ≡ some (recover_task u t)))
    → RecoversBy (get j tasks) (get j (recover_each utc n ts s).1.tasks)
unfolding recover_each
recover_each-RecoversBy utc n [] tasks s j r b rest = elim b [
  | inr put_back ↦ inr put_back
  | inl same ↦ elim (Option-cases (get j tasks)) [
    | inl e ↦ inl (same, λ t g. absurd (ground arith))
    | inr (t, e) ↦ elim (Bool-cases (is_running t)) [
      | inl y ↦ let (u, g) = rest t e y refl in inr (t, u, e, y, g)
      | inr n ↦
          inl
            (same, λ t' g. let eq : t ≡ t' = ground arith in subst (λ w. is_running w ≡ false) eq n)
    ]
  ]
]
recover_each-RecoversBy utc n (t ∷ ts) tasks s j r b rest =
    recover_each-RecoversBy utc (n + 1) ts tasks (store_task t.task_id (recover_task (utc n) t) s) j
      r.1 stored left
  where
    now :
        get j (store_task t.task_id (recover_task (utc n) t) s).tasks
        ≡ (if t.task_id == j then some (recover_task (utc n) t) else get j s.tasks)
    now = get-store_task t.task_id j (recover_task (utc n) t) s

    stored : Between (get j tasks) (get j (store_task t.task_id (recover_task (utc n) t) s).tasks)
    stored = elim (Bool-cases (t.task_id == j)) [
      | inl hit ↦ inr (
        t,
        utc n,
        ap (λ k. get k tasks) (sym ((eq_iff t.task_id j).0 hit)) ∙ r.0.0,
        r.0.1,
        now ∙ rw hit,
      )
      | inr miss ↦ subst (Between (get j tasks)) (sym (now ∙ rw miss)) b
    ]

    left :
        (t' : TaskRecord)
        → get j tasks ≡ some t'
        → is_running t' ≡ true
        → contains j (ids ts) ≡ false
        → (u : ℕ) × (get j (store_task t.task_id (recover_task (utc n) t) s).tasks
            ≡ some (recover_task u t'))
    left t' e y c = elim (Bool-cases (t.task_id == j)) [
      | inl hit ↦
          let here = ap (λ k. get k tasks) (sym ((eq_iff t.task_id j).0 hit)) ∙ r.0.0 in
          let eq : t ≡ t' = ground arith in
          (utc n, now ∙ rw hit (ap (λ w. some (recover_task (utc n) w)) eq))
      | inr miss ↦ let (u, g) = rest t' e y (ground arith) in (u, now ∙ rw miss g)
    ]

running_listed :
    (j : String) (t : TaskRecord) (d : Dict TaskRecord)
    → IsKeyed d
    → get j d ≡ some t
    → is_running t ≡ true
    → contains j (ids (keep is_running (values d))) ≡ true
unfolding get
running_listed j t [] k e y = absurd (ground arith)
running_listed j t ((i, w) ∷ d) k e y = elim (Bool-cases (i == j)) [
  | inl hit ↦
      let same : w ≡ t = ground arith in
      let runs : is_running w ≡ true = subst (λ x. is_running x ≡ true) (sym same) y in
      rw runs (ground (arith, k.0))
  | inr miss ↦ ground (arith, running_listed j t d k.2 (ground arith) y)
]

recover_running-RecoversBy :
    (utc : ℕ → ℕ) (s : Streams) (j : String)
    → IsKeyed s.tasks
    → RecoversBy (get j s.tasks) (get j (recover_running utc s).1.tasks)
unfolding recover_running
recover_running-RecoversBy utc s j k =
    recover_each-RecoversBy utc 0 (sort_by_created (keep is_running (values s.tasks))) s.tasks s j
      (All-sort (RunsAt s.tasks) (keep is_running (values s.tasks)) (
        All-keep (λ t. get t.task_id s.tasks ≡ some t) is_running (values s.tasks)
          (get-values s.tasks k)))
      (inl refl)
      (λ t e y c. absurd (
        cc (
          contains-sort j (keep is_running (values s.tasks)),
          c,
          running_listed j t s.tasks k e y,
        )))

-- The task waits again: what it has collected stays, and its errors and its completion go.
pub record IsPutBack (before after : TaskRecord) : Type 0 where
  pub status : after.status ≡ TaskStatus.queued
  pub error : after.error_code ≡ none
  pub sources : after.source_errors ≡ record { core_metrics = none; main_fund_flow = none }
  pub completion : after.completed_at ≡ none
  pub same :
      (after.task_id ≡ before.task_id)
      × (after.symbol ≡ before.symbol)
      × (after.created_at ≡ before.created_at)
      × (after.captures ≡ before.captures)
      × (after.values ≡ before.values)

put_back : (u : ℕ) (t : TaskRecord) → IsPutBack t (recover_task u t)
unfolding recover_task
put_back u t = record {
  status = refl;
  error = refl;
  sources = refl;
  completion = refl;
  same = (refl, refl, refl, refl, refl);
}

-- What becomes of a place of the store: a running task is put back, all else stays.
abbrev pub Recovers : Option TaskRecord → Option TaskRecord → Type 0
Recovers before after =
    ((after ≡ before) × ((t : TaskRecord) → before ≡ some t → t.status ≢ TaskStatus.running))
    ⊎ ((t : TaskRecord) × (r : TaskRecord) × (before ≡ some t)
        × (t.status ≡ TaskStatus.running)
        × (after ≡ some r)
        × IsPutBack t r)

-- After recover_running each task that was running is queued, without an error, without source
-- errors and without a time of completion, and every other task is as it was; each task stands
-- under its own id.
pub recover_running-Recovers :
    (utc : ℕ → ℕ) (s : Streams) (j : String)
    → IsKeyed s.tasks
    → Recovers (get j s.tasks) (get j (recover_running utc s).1.tasks)
unfolding is_running
recover_running-Recovers utc s j k = elim (recover_running-RecoversBy utc s j k) [
  | inl (same, idle) ↦ inl (same, λ t e r. absurd (ground (arith, idle t e, r)))
  | inr (t, u, e, y, after) ↦ inr (t, recover_task u t, e, ground arith, after, put_back u t)
]
