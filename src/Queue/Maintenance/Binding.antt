-- ===== src/Queue/Maintenance/Binding.antt =====
-- level2_service/queue.py: what a successful binding of the acceptance task leaves.
use tonghuashun.Base.{
  String, ◌≡◌, refl, sym, ap, ◌∙◌, subst, true, false, Option, some, arith, eq_iff, eq_refl,
  Bool-cases, inl, inr, is_some, leb,
}
use tonghuashun.Dict.{get, put, get-put}
use tonghuashun.Models.{TaskRecord}
use tonghuashun.Queue.{
  Streams, Platform, Clocks, Lease, Result, ok, err, queue_full, invalid_transition, key_error,
  value_error, type_error, event_write_failed, has_maintenance_metadata, namespace, is_digest,
  unlink_all, move_to_fifo_tail, store_task, pending, is_active, is_refreshable,
}
use tonghuashun.Queue.Claim.Bound.{valid_bound-facts}
use tonghuashun.Queue.Claim.{valid_bound_acceptance, digest_is}
use tonghuashun.Queue.Submit.{enqueue_locked, refresh_locked, reset_task}
use tonghuashun.Queue.Maintenance.{
  valid_legacy_bound_acceptance, mark_acceptance, terminal_acceptance_retryable, retry_bound,
  unless_full, bind_again, bind_first, bound_result,
}

module _ (os : Platform) (owner : String) (hex : is_digest (os.sha256_hex owner) ≡ true) where
  -- The lease is bound to the task, which is a valid acceptance task of the owner.
  pub record IsBound (t : TaskRecord) (s : Streams) : Type 0 where
    pub lease : Lease
    pub held : s.lease ≡ some lease
    pub bound : lease.bound_task_id ≡ some t.task_id
    pub digest : lease.owner_digest ≡ some (os.sha256_hex owner)
    pub stored : get t.task_id s.tasks ≡ some t
    pub valid : valid_bound_acceptance t.task_id (os.sha256_hex owner) false t ≡ true

  -- A successful result of a call.
  abbrev pub Binds : Result (Option TaskRecord) × Streams → Type 0
  Binds r = (t : TaskRecord) → r.0 ≡ ok (some t) → IsBound t r.1

  marked-valid :
      (t : TaskRecord)
      → t.symbol ≡ "601872"
      → t.include_long_capture ≡ false
      → valid_bound_acceptance t.task_id (os.sha256_hex owner) false (mark_acceptance os owner t)
        ≡ true
  unfolding valid_bound_acceptance digest_is mark_acceptance
  marked-valid t y i = ground (
    arith,
    hex,
    eq_iff t.symbol "601872",
    eq_refl t.task_id,
    eq_refl namespace,
    eq_refl (os.sha256_hex owner),
  )

  enqueued-IsBound :
      (task : TaskRecord) (l : Lease) (s : Streams) (r : Result TaskRecord × Streams)
      → l.owner_digest ≡ some (os.sha256_hex owner)
      → valid_bound_acceptance task.task_id (os.sha256_hex owner) false task ≡ true
      → r ≡ enqueue_locked true task s
      → Binds (bound_result os l r)
  unfolding enqueue_locked store_task
  enqueued-IsBound task l s (err queue_full, s') d v e t h = absurd (ground arith)
  enqueued-IsBound task l s (err invalid_transition, s') d v e t h = absurd (ground arith)
  enqueued-IsBound task l s (err key_error, s') d v e t h = absurd (ground arith)
  enqueued-IsBound task l s (err value_error, s') d v e t h = absurd (ground arith)
  enqueued-IsBound task l s (err type_error, s') d v e t h = absurd (ground arith)
  enqueued-IsBound task l s (err event_write_failed, s') d v e t h = absurd (ground arith)
  enqueued-IsBound task l s (ok u, s') d v e t h =
      let same : u ≡ t = ground arith in
      let mine : u ≡ task = ground (arith, e) in
      subst
        (λ w. IsBound w (record s' { lease = some (record l { bound_task_id = some u.task_id }) }))
        same
        (record {
          lease = record l { bound_task_id = some u.task_id };
          held = refl;
          bound = refl;
          digest = d;
          stored =
              ground
                (arith, e, get-put task.task_id task.task_id task s.tasks, eq_refl task.task_id);
          valid =
              subst (λ w. valid_bound_acceptance w.task_id (os.sha256_hex owner) false w ≡ true)
                (sym mine) v;
        })

  pub bind_first-Binds :
      (now : Clocks) (l : Lease) (task : TaskRecord) (s : Streams)
      → task.symbol ≡ "601872"
      → task.include_long_capture ≡ false
      → l.owner_digest ≡ some (os.sha256_hex owner)
      → Binds (bind_first os now owner l task s)
  unfolding bind_first mark_acceptance
  bind_first-Binds now l task s y i d t e = elim (Bool-cases (is_some (get task.task_id s.tasks))) [
    | inl taken ↦ absurd (ground arith)
    | inr free ↦
        rw (free, bind_first)
          (enqueued-IsBound (mark_acceptance os owner task) l s _ d (marked-valid task y i) refl t
            (rw (free, bind_first) at e))
  ]

  -- A lease that is bound to a valid task stays so when the task is stored anew.
  stored-IsBound :
      (t t' : TaskRecord) (s base : Streams)
      → IsBound t s
      → t'.task_id ≡ t.task_id
      → valid_bound_acceptance t.task_id (os.sha256_hex owner) false t' ≡ true
      → base.lease ≡ s.lease
      → IsBound t' (store_task t.task_id t' base)
  unfolding store_task
  stored-IsBound t t' s base b i v l = record {
    lease = b.lease;
    held = l ∙ b.held;
    bound = b.bound ∙ ap some (sym i);
    digest = b.digest;
    stored =
        get-put t.task_id t'.task_id t' base.tasks ∙ ground (arith, eq_iff t.task_id t'.task_id, i);
    valid = subst (λ k. valid_bound_acceptance k (os.sha256_hex owner) false t' ≡ true) (sym i) v;
  }

  reset-valid :
      (now : Clocks) (t : TaskRecord)
      → valid_bound_acceptance t.task_id (os.sha256_hex owner) false t ≡ true
      → valid_bound_acceptance t.task_id (os.sha256_hex owner) false (reset_task now (some false) t)
        ≡ true
  unfolding valid_bound_acceptance reset_task
  reset-valid now t v = ground arith

  -- The state of `_refresh_locked` before the task is stored.
  abbrev after : Clocks → TaskRecord → Streams → Streams
  after now t s = record s {
    unlinked = unlink_all os s.capture_root t s.unlinked;
    fifo = move_to_fifo_tail t.task_id s.fifo;
  }

  refreshed-IsBound :
      (now : Clocks) (t u : TaskRecord) (s : Streams)
      → IsBound t s
      → (refresh_locked os now t (some false) s).0 ≡ ok u
      → IsBound u (refresh_locked os now t (some false) s).1
  unfolding refresh_locked
  refreshed-IsBound now t u s b e = elim (Bool-cases (is_active t.status)) [
    | inl a ↦
        let same : t ≡ u = ground arith in rw (a, refresh_locked) (subst (λ w. IsBound w s) same b)
    | inr a ↦ elim (Bool-cases (leb s.pending_cap (pending s))) [
      | inl full ↦ absurd (ground arith)
      | inr room ↦
          let fresh = reset_task now (some false) t in
          let same : fresh ≡ u = ground arith in
          let refreshable : is_refreshable t.status ≡ true = ground arith in
          rw (a, refresh_locked, refreshable, room)
            (subst (λ w. IsBound w (store_task t.task_id fresh (after now t s))) same
              (stored-IsBound t fresh s (after now t s) b refl (reset-valid now t b.valid) refl))
    ]
  ]

  unless_full-ok :
      (r : Result TaskRecord × Streams) (u : TaskRecord)
      → (unless_full os r).0 ≡ ok (some u)
      → (r.0 ≡ ok u) × ((unless_full os r).1 ≡ r.1)
  unless_full-ok (ok t, s) u e = (ground arith, refl)
  unless_full-ok (err queue_full, s) u e = absurd (ground arith)
  unless_full-ok (err invalid_transition, s) u e = absurd (ground arith)
  unless_full-ok (err key_error, s) u e = absurd (ground arith)
  unless_full-ok (err value_error, s) u e = absurd (ground arith)
  unless_full-ok (err type_error, s) u e = absurd (ground arith)
  unless_full-ok (err event_write_failed, s) u e = absurd (ground arith)

  retry_bound-Binds :
      (now : Clocks) (t : TaskRecord) (s : Streams) → IsBound t s → Binds (retry_bound os now t s)
  unfolding retry_bound
  retry_bound-Binds now t s b u e = elim (Bool-cases (terminal_acceptance_retryable t)) [
    | inr n ↦
        let same : t ≡ u = ground arith in rw (n, retry_bound) (subst (λ w. IsBound w s) same b)
    | inl y ↦
        let (done, state) =
          unless_full-ok (refresh_locked os now t (some false) s) u (rw (y, retry_bound) at e) in
        rw (y, retry_bound, state) (refreshed-IsBound now t u s b done)
  ]

  mark-valid :
      (bound : String) (t : TaskRecord)
      → valid_legacy_bound_acceptance bound t ≡ true
      → valid_bound_acceptance bound (os.sha256_hex owner) false (mark_acceptance os owner t) ≡ true
  unfolding valid_legacy_bound_acceptance valid_bound_acceptance digest_is mark_acceptance
  mark-valid bound t h = ground (arith, hex, eq_refl namespace, eq_refl (os.sha256_hex owner))

  -- The task under the bound id is a valid acceptance task after the checks of a second binding.
  pub bind_again-Binds :
      (now : Clocks) (l : Lease) (bound : String) (t : TaskRecord) (s : Streams)
      → s.lease ≡ some l
      → l.bound_task_id ≡ some bound
      → l.owner_digest ≡ some (os.sha256_hex owner)
      → get bound s.tasks ≡ some t
      → Binds (bind_again os now owner bound t s)
  unfolding bind_again
  bind_again-Binds now l bound t s h b d g u e = elim (Bool-cases (has_maintenance_metadata t)) [
    | inl m ↦ elim (Bool-cases (valid_bound_acceptance bound (os.sha256_hex owner) false t)) [
      | inr n ↦ absurd (ground arith)
      | inl v ↦
          rw (m, bind_again, v)
            (retry_bound-Binds now t s (held t s g v h) u (rw (m, bind_again, v) at e))
    ]
    | inr m ↦ elim (Bool-cases (valid_legacy_bound_acceptance bound t)) [
      | inr n ↦ absurd (ground arith)
      | inl v ↦
          rw (m, bind_again, v)
            (retry_bound-Binds now (mark_acceptance os owner t)
              (record s { tasks = put bound (mark_acceptance os owner t) s.tasks })
              (held (mark_acceptance os owner t)
                (record s { tasks = put bound (mark_acceptance os owner t) s.tasks })
                (get-put bound bound (mark_acceptance os owner t) s.tasks ∙ rw eq_refl)
                (mark-valid bound t v) h)
              u (rw (m, bind_again, v) at e))
    ]
  ]
    where
      held :
          (w : TaskRecord) (s' : Streams)
          → get bound s'.tasks ≡ some w
          → valid_bound_acceptance bound (os.sha256_hex owner) false w ≡ true
          → s'.lease ≡ some l
          → IsBound w s'
      held w s' gw v hl =
          let i = (valid_bound-facts bound (os.sha256_hex owner) false w v).0 in
          record {
            lease = l;
            held = hl;
            bound = b ∙ ap some (sym i);
            digest = d;
            stored = ap (λ k. get k s'.tasks) i ∙ gw;
            valid =
                subst (λ k. valid_bound_acceptance k (os.sha256_hex owner) false w ≡ true) (sym i)
                  v;
          }
