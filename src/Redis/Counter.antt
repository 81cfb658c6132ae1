-- ===== src/Redis/Counter.antt =====
-- level2_service/queue.py: the counter of active tasks in `RedisStreamsStore`, next to the tasks that
-- its payloads hold.
pub mod Steps
pub mod Persisting
pub mod Runs
pub mod Restarts
pub mod Reachable
pub mod Binding
use tonghuashun.Base.{
  ℕ, suc, ◌+◌, ◌≤◌, ◌≡◌, refl, sym, ◌∙◌, ap, subst, String, Bool, true, false, Option, none, some,
  List, arith, ℤ, pos, negsuc, add_one, sub_one, Lags, add_one-Lags, sub_one-Lags,
}
use tonghuashun.Dict.{Dict, get, put}
use tonghuashun.Dict.Counting.{count_values, weight, count-put}
use tonghuashun.Models.{TaskRecord}
use tonghuashun.Queue.{is_active, task_active}
use tonghuashun.Queue.Keyed.{IsKeyed, put-IsKeyed}
use tonghuashun.Redis.{RedisStore, pending_count, count_change, count_up}

-- The tasks with an active status.
abbrev pub active_tasks : RedisStore → ℕ
active_tasks s = count_values task_active s.payloads

-- The counter is d below the number of active tasks, and each payload is under its own id.
pub record IsCounted (d : ℕ) (s : RedisStore) : Type 0 where
  pub counter : ℤ
  pub held : s.active ≡ some counter
  pub lags : Lags d counter (active_tasks s)
  pub keyed : IsKeyed s.payloads

module _ (d : ℕ) (s s' : RedisStore) where
  -- Neither the payloads nor the counter change.
  pub same-IsCounted :
      s'.payloads ≡ s.payloads → s'.active ≡ s.active → IsCounted d s → IsCounted d s'
  same-IsCounted p a h = record {
    counter = h.counter;
    held = a ∙ h.held;
    lags = rw p h.lags;
    keyed = rw p h.keyed;
  }

  -- A payload changes and stays active, or stays inactive.
  pub kept-IsCounted :
      (k : String) (t : TaskRecord)
      → weight task_active (get k s.payloads) ≡ weight task_active (some t)
      → t.task_id ≡ k
      → s'.payloads ≡ put k t s.payloads
      → s'.active ≡ s.active
      → IsCounted d s
      → IsCounted d s'
  kept-IsCounted k t w e p a h = record {
    counter = h.counter;
    held = a ∙ h.held;
    lags =
        (let n : active_tasks s' ≡ active_tasks s =
            rw p (omega (arith, count-put task_active k t s.payloads, w)) in
          rw n h.lags);
    keyed = rw p (put-IsKeyed k t s.payloads e h.keyed);
  }

  -- A payload becomes active and the counter goes up.
  pub up-IsCounted :
      (k : String) (t : TaskRecord)
      → weight task_active (get k s.payloads) ≡ 0
      → task_active t ≡ true
      → t.task_id ≡ k
      → s'.payloads ≡ put k t s.payloads
      → s'.active ≡ some (add_one (pending_count s))
      → IsCounted d s
      → IsCounted d s'
  up-IsCounted k t w q e p a h = record {
    counter = add_one h.counter;
    held = a ∙ rw h.held refl;
    lags =
        (let n : active_tasks s' ≡ suc (active_tasks s) =
            rw p (ground (arith, count-put task_active k t s.payloads, w, q)) in
          rw n (add_one-Lags d h.counter (active_tasks s) h.lags));
    keyed = rw p (put-IsKeyed k t s.payloads e h.keyed);
  }

  -- A payload becomes inactive and the counter goes down.
  pub down-IsCounted :
      (k : String) (t : TaskRecord)
      → weight task_active (get k s.payloads) ≡ 1
      → task_active t ≡ false
      → t.task_id ≡ k
      → s'.payloads ≡ put k t s.payloads
      → s'.active ≡ some (sub_one (pending_count s))
      → IsCounted d s
      → IsCounted d s'
  down-IsCounted k t w q e p a h = record {
    counter = sub_one h.counter;
    held = a ∙ rw h.held refl;
    lags =
        (let n : active_tasks s ≡ suc (active_tasks s') =
            rw p (ground (arith, count-put task_active k t s.payloads, w, q)) in
          sub_one-Lags d h.counter (active_tasks s') (rw n at h.lags));
    keyed = rw p (put-IsKeyed k t s.payloads e h.keyed);
  }
