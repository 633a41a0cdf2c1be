-- ===== src/Scheduler/Whereabouts/Requests.antt =====
-- dispatch and finish of engine/native/scheduler.go, and where they put a request.
use gbalancer.Prelude.{
  ℕ, ◌+◌, ◌==◌, ◌≡◌, ap, ◌∙◌, false, Bool-cases, Option-cases, inl, inr, List, [], ◌∷◌, ◌++◌, map,
  arith, leb, if◌then◌else◌,
}
use gbalancer.Prelude.Lists.{mult}
use gbalancer.Backend.{spdy_check_stream_id}
use gbalancer.Pool.{Pool}
use gbalancer.Heap.{add, take_top, remove}
use gbalancer.State.{close_client, create_session, Scheduler, Env, max_forwarders_per_backend}
use gbalancer.Scheduler.{
  set_pool, enter, leave, start, admit, dispatch, take_off, put_on, is_dial, finish,
}
use gbalancer.Scheduler.Invariant.{mult-append}
use gbalancer.Scheduler.Whereabouts.{
  OnDone, OnDone->>, OnDone-map, OnDone-on_pool, closings-append, retries, IsAt, IsIn, IsAt-IsIn,
  IsAt-set_pool,
}

module _ (r c m w : ℕ) (p : List ℕ) where
  start-IsAt :
      (env : Env) (t : Scheduler) (b x : ℕ)
      → IsAt r c m w p t
      → IsAt r c m (mult r (x ∷ []) + w) p (start env t b x)
  unfolding start
  start-IsAt env t b x h = record {
    conn = elim (Bool-cases (x == r)) [
      | inl self ↦ rw self (ground (arith, h.conn, self))
      | inr other ↦ rw other h.conn
    ];
    next = h.next;
    least =
        let (v, checked, renewed) =
          spdy_check_stream_id env.peek_next_stream_id env.now t.check_time (t.pool.mem b) in
        omega (arith, closings-append c t.effects (map (create_session b) renewed), h.least);
    waits = h.waits;
  }

  shed-IsAt :
      (t : Scheduler) (q : Pool) (x : ℕ)
      → IsAt r c m w p t
      → IsAt r c m
          (mult r (x ∷ []) + w)
          p
          (record t { pool = q; effects = t.effects ++ close_client (t.requests x).conn ∷ [] })
  shed-IsAt t q x h = record {
    conn = h.conn;
    next = h.next;
    least =
        let own : x ≡ r → (t.requests x).conn ≡ c = λ e. ap (λ i. (t.requests i).conn) e ∙ h.conn in
        ground (
          arith,
          closings-append c t.effects (close_client (t.requests x).conn ∷ []),
          h.least,
          own,
        );
    waits = h.waits;
  }

  admit-IsAt :
      (env : Env) (t : Scheduler) (b x : ℕ)
      → IsAt r c m w p t
      → OnDone (IsAt r c m (mult r (x ∷ []) + w) p) (admit env t b x)
  unfolding admit
  admit-IsAt env t b x h =
      elim (Bool-cases (leb max_forwarders_per_backend (t.pool.mem b).ongoing)) [
        | inl full ↦ rw full (
            OnDone-on_pool (IsAt r c m (mult r (x ∷ []) + w) p) t (add t.pool b) _
              (λ q. shed-IsAt t q x h))
        | inr room ↦ rw room (
            OnDone-on_pool (IsAt r c m (mult r (x ∷ []) + w) p) (enter t b) (add (enter t b).pool b)
              _ (λ q. start-IsAt env (set_pool t q) b x (IsAt-set_pool r c m w p t q h)))
      ]

  -- with some backend on the heap dispatch starts the request or closes its client
  pub dispatch-IsAt :
      (env : Env) (t : Scheduler) (x : ℕ)
      → (t.pool.len == 0) ≡ false
      → IsAt r c m w p t
      → OnDone (IsAt r c m (mult r (x ∷ []) + w) p) (dispatch env t x)
  unfolding dispatch
  dispatch-IsAt env t x some_up h = rw some_up (
      OnDone-on_pool (IsAt r c m (mult r (x ∷ []) + w) p) t (take_top t.pool) _
        (λ (b, q). admit-IsAt env (set_pool t q) b x (IsAt-set_pool r c m w p t q h)))

  -- a request that is dispatched is somewhere
  pub dispatch-IsIn :
      (env : Env) (t : Scheduler) (x : ℕ)
      → IsAt r c m w p t
      → OnDone (IsIn r c m (mult r p + (mult r (x ∷ []) + w))) (dispatch env t x)
  unfolding dispatch
  dispatch-IsIn env t x h = elim (Bool-cases (t.pool.len == 0)) [
    | inl nobody ↦ rw nobody (record {
      conn = h.conn;
      next = h.next;
      least = omega (arith, mult-append r t.pending (x ∷ []), ap (mult r) h.waits, h.least);
    })
    | inr some_up ↦
        OnDone-map _ _ (dispatch env t x) (IsAt-IsIn r c m (mult r (x ∷ []) + w) p)
          (dispatch-IsAt env t x some_up h)
  ]

  pub take_off-IsAt :
      (t : Scheduler) (b : ℕ) → IsAt r c m w p t → OnDone (IsAt r c m w p) (take_off t b)
  take_off-IsAt t b h = elim (Option-cases (t.pool.mem b).index) [
    | inl off ↦ rw (off, take_off) h
    | inr (i, at) ↦
        rw (at, take_off)
          (OnDone-on_pool (IsAt r c m w p) t (remove t.pool i) _
            (λ (x, q). IsAt-set_pool r c m w p t q h))
  ]

  pub put_on-IsAt :
      (t : Scheduler) (b : ℕ) → IsAt r c m w p t → OnDone (IsAt r c m w p) (put_on t b)
  put_on-IsAt t b h =
      OnDone-on_pool (IsAt r c m w p) t (add t.pool b) _ (λ q. IsAt-set_pool r c m w p t q h)

  settled : (t : Scheduler) → IsAt r c m w p t → IsIn r c m (mult r p + (0 + w)) t
  settled t h = record {
    conn = h.conn;
    next = h.next;
    least = omega (arith, ap (mult r) h.waits, h.least);
  }

  -- a request that comes from the channel is somewhere if its dial failed, and no other is lost
  pub finish-IsIn :
      (env : Env) (t : Scheduler) (x : ℕ)
      → IsAt r c m w p t
      → OnDone
          (IsIn r c m
            (mult r p + ((if retries (t.requests x).err then mult r (x ∷ []) else 0) + w)))
          (finish env t x)
  unfolding finish
  finish-IsIn env t x h = elim (Option-cases (t.requests x).backend) [
    | inl nobody ↦ rw (nobody, finish) tt
    | inr (b, at) ↦ elim (Option-cases (t.requests x).err) [
      | inr (e, failed) ↦
          rw (at, finish, failed)
            (OnDone->> (IsAt r c m w p) _ (take_off t b) _ (take_off-IsAt t b h) (λ u k.
              elim (Bool-cases (is_dial e)) [
                | inl dial ↦
                    rw dial (dispatch-IsIn env (leave u b) x (IsAt-set_pool r c m w p u _ k))
                | inr other ↦ rw other (settled (leave u b) (IsAt-set_pool r c m w p u _ k))
              ]))
      | inl fine ↦ elim (Option-cases (t.pool.mem b).index) [
        | inl off ↦ rw (at, finish, fine, off) (settled (leave t b) (IsAt-set_pool r c m w p t _ h))
        | inr (i, on) ↦
            rw (at, finish, fine, on)
              (OnDone->> (IsAt r c m w p) _ (take_off t b) (λ u. put_on (leave u b) b)
                (take_off-IsAt t b h)
                (λ u k.
                  OnDone-map _ _ (put_on (leave u b) b) (settled)
                    (put_on-IsAt (leave u b) b (IsAt-set_pool r c m w p u _ k))))
      ]
    ]
  ]
