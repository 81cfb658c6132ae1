-- ===== src/Queue/Maintenance/Removal.antt =====
-- level2_service/queue.py: the acceptance task at the end of its deployment lease.
use tonghuashun.Base.{
  String, ◌≡◌, ◌≢◌, refl, subst, ◌∙◌, Bool, true, false, not, Option, none, some, List, [], ◌∷◌,
  arith, ◌==◌, eq_iff, eq_refl, Bool-cases, Option-cases, inl, inr, keep, contains, All, All-keep,
}
use tonghuashun.Dict.{Dict, get, get-pop}
use tonghuashun.Models.{TaskRecord}
use tonghuashun.Queue.{
  Streams, Platform, Clocks, Lease, Result, ok, err, active_lease, compare_digest,
}
use tonghuashun.Queue.Canonical.{canonical_task}
use tonghuashun.Queue.Keyed.{canonical_task-All}
use tonghuashun.Queue.Maintenance.{
  redirect, is_ordinary_twin, own_values, drop_task, removable, remove_maintenance_task,
}
use tonghuashun.Queue.Leases.{same_digest}
use tonghuashun.Queue.Cleanup.{
  releasable, release_bound, release_owned, release_under, release_deployment_lease, ended,
}

-- No alias has the name or leads to it.
abbrev pub IsClear : String → Dict String → Type 0
IsClear id [] = Unit
IsClear id ((alias, target) ∷ d) = ((alias == id) ≡ false) × ((target == id) ≡ false) × IsClear id d

-- Nothing of the task is left, and the other tasks are as before.
pub record IsGone (id : String) (before after : Streams) : Type 0 where
  pub task : get id after.tasks ≡ none
  pub others : (j : String) → j ≢ id → get j after.tasks ≡ get j before.tasks
  pub queue : contains id after.fifo ≡ false
  pub events : get id after.events ≡ none
  pub aliases : IsClear id after.aliases

contains-keep :
    (id : String) (xs : List String) → contains id (keep (λ item. not (item == id)) xs) ≡ false
contains-keep id [] = refl
contains-keep id (x ∷ xs) = ground (arith, contains-keep id xs)

-- The task to which aliases are redirected is another one.
abbrev IsOther : String → Option TaskRecord → Type 0
IsOther id none = Unit
IsOther id (some c) = (c.task_id == id) ≡ false

redirect-IsClear :
    (id : String) (canonical : Option TaskRecord) (d : Dict String)
    → IsOther id canonical
    → IsClear id (redirect id canonical d)
unfolding redirect
redirect-IsClear id canonical [] o = tt
redirect-IsClear id none ((a, t) ∷ d) o = ground (arith, redirect-IsClear id none d o)
redirect-IsClear id (some c) ((a, t) ∷ d) o = ground (arith, redirect-IsClear id (some c) d o)

All-tt : (ts : List TaskRecord) → All (λ _. Unit {0}) ts
All-tt [] = tt
All-tt (t ∷ ts) = (tt, All-tt ts)

twin-IsOther :
    (id symbol : String) (ts : List TaskRecord)
    → IsOther id (canonical_task (keep (is_ordinary_twin id symbol) ts))
unfolding is_ordinary_twin
twin-IsOther id symbol ts = go (canonical_task (keep (is_ordinary_twin id symbol) ts)) refl
  where
    go :
        (c : Option TaskRecord)
        → canonical_task (keep (is_ordinary_twin id symbol) ts) ≡ c
        → IsOther id c
    go none e = tt
    go (some c) e =
        let twin =
          canonical_task-All (λ t. Unit {0} × (is_ordinary_twin id symbol t ≡ true)) _
            (All-keep (λ _. Unit {0}) (is_ordinary_twin id symbol) ts (All-tt ts)) e in
        ground (arith, twin.1)

module _ (os : Platform) where
  drop_task-IsGone :
      (id : String) (task : TaskRecord) (s : Streams) → IsGone id s (drop_task os id task s)
  unfolding drop_task
  drop_task-IsGone id task s = record {
    task = get-pop id id s.tasks ∙ rw eq_refl;
    others = λ j n. get-pop id j s.tasks ∙ ground (arith, eq_iff id j);
    queue = contains-keep id s.fifo;
    events = get-pop id id s.events ∙ rw eq_refl;
    aliases = redirect-IsClear id _ s.aliases (twin-IsOther id task.symbol (own_values s.tasks));
  }

  remove-IsGone :
      (digest : Option String) (legacy : Bool) (id : String) (s : Streams) (t : TaskRecord)
      → (remove_maintenance_task os digest legacy id s).0 ≡ some t
      → IsGone id s (remove_maintenance_task os digest legacy id s).1
  unfolding remove_maintenance_task
  remove-IsGone digest legacy id s t e = elim (Option-cases (get id s.tasks)) [
    | inl g ↦ absurd (ground arith)
    | inr (task, g) ↦ elim (Bool-cases (removable digest legacy id task)) [
      | inr n ↦ absurd (ground arith)
      | inl y ↦ rw (g, remove_maintenance_task, y) (drop_task-IsGone id task s)
    ]
  ]

  -- A state that differs only in its lease.
  unleased-IsGone :
      (id : String) (s s' : Streams) → IsGone id s s' → IsGone id s (record s' { lease = none })
  unleased-IsGone id s s' g = record {
    task = g.task;
    others = g.others;
    queue = g.queue;
    events = g.events;
    aliases = g.aliases;
  }

  -- The outcome of a successful release.
  abbrev pub IsReleased : Option String → Streams → Result Bool × Streams → Type 0
  IsReleased bound s r =
      r.0 ≡ ok true → (r.1.lease ≡ none) × ((id : String) → bound ≡ some id → IsGone id s r.1)

  ended-IsReleased :
      (id : String) (s : Streams) (r : Option TaskRecord × Streams)
      → ((t : TaskRecord) → r.0 ≡ some t → IsGone id s r.1)
      → IsReleased (some id) s (ended os r)
  ended-IsReleased id s (none, s') g e = absurd (ground arith)
  ended-IsReleased id s (some t, s') g e = (
    refl,
    λ j h.
        subst (λ k. IsGone k s (record s' { lease = none })) (cc h)
          (unleased-IsGone id s s' (g t refl)),
  )

  release_bound-IsReleased :
      (id digest : String) (s : Streams) → IsReleased (some id) s (release_bound os id digest s)
  unfolding release_bound
  release_bound-IsReleased id digest s e = elim (Option-cases (get id s.tasks)) [
    | inl g ↦ absurd (ground arith)
    | inr (task, g) ↦ elim (Bool-cases (releasable os id digest task)) [
      | inr n ↦ absurd (ground arith)
      | inl y ↦
          rw (g, release_bound, y)
            (ended-IsReleased id s (remove_maintenance_task os (some digest) true id s)
              (remove-IsGone (some digest) true id s) (rw (g, release_bound, y) at e))
    ]
  ]

  release_owned-IsReleased :
      (digest : String) (l : Lease) (s : Streams)
      → IsReleased l.bound_task_id s (release_owned os digest l s)
  unfolding release_owned
  release_owned-IsReleased digest l s e = elim (Bool-cases (same_digest l.owner_digest digest)) [
    | inr n ↦ absurd (ground arith)
    | inl y ↦ elim (Option-cases l.bound_task_id) [
      | inl b ↦ rw (y, release_owned, b) (refl, λ id h. absurd (ground (arith, b)))
      | inr (bound, b) ↦
          rw (y, release_owned, b)
            (release_bound-IsReleased bound digest s (rw (y, release_owned, b) at e))
    ]
  ]

  -- A release that succeeds ends the lease and removes its bound task: no task, no place in the
  -- queue, no event and no alias of the bound id is left, and all other tasks are as before.
  pub release-IsReleased :
      (now : Clocks) (owner : String) (s : Streams) (l : Lease)
      → active_lease now s ≡ (some l, s)
      → (release_deployment_lease os now owner s).0 ≡ ok true
      → ((release_deployment_lease os now owner s).1.lease ≡ none)
        × ((id : String)
            → l.bound_task_id ≡ some id
            → IsGone id s (release_deployment_lease os now owner s).1)
  unfolding release_deployment_lease release_under
  release-IsReleased now owner s l a e = go (compare_digest l.owner_token owner) refl
    where
      go :
          (c : Result Bool)
          → compare_digest l.owner_token owner ≡ c
          → ((release_deployment_lease os now owner s).1.lease ≡ none)
            × ((id : String)
                → l.bound_task_id ≡ some id
                → IsGone id s (release_deployment_lease os now owner s).1)
      go (err x) c = absurd (ground (arith, a, c))
      go (ok false) c = absurd (ground (arith, a, c))
      go (ok true) c =
          rw (a, release_deployment_lease, release_under, c)
            (release_owned-IsReleased (os.sha256_hex owner) l s
              (rw (a, release_deployment_lease, release_under, c) at e))
