-- ===== src/Scheduler/Whereabouts/Backends.antt =====
-- The cases of a message and of a new session in engine/native/scheduler.go, and the requests.
use Prim.Native.String.{String}
use gbalancer.Prelude.{
  ℕ, ◌+◌, ◌<◌, ◌≡◌, ap, subst, true, false, ◌&&◌, Bool-cases, Option-cases, inl, inr, List, [], ◌∷◌,
  ◌++◌, arith, ltb, if◌then◌else◌,
}
use gbalancer.Prelude.Dict.{Dict, lookup, insert, delete}
use gbalancer.Prelude.Lists.{mult, length}
use gbalancer.Backend.{Backend}
use gbalancer.State.{Scheduler, Effect, Env, Exec, done, ◌>>◌}
use gbalancer.Scheduler.{
  set_backend, take_off, put_on, add_backend, remove_backend, review, sessions, allocate, bring_up,
  bring_up_all, ordered_names, on_status, drain, enlist,
}
use gbalancer.Scheduler.Invariant.{Inv}
use gbalancer.Scheduler.Moves.{add_backend-Moved}
use gbalancer.Scheduler.Waiting.{waiting, drain_one, list_cases, Moved-Inv}
use gbalancer.Scheduler.Whereabouts.{
  OnDone, OnDone->>, OnDone-map, closings-append, IsAt, IsIn, IsAt-IsIn,
}
use gbalancer.Scheduler.Whereabouts.Requests.{dispatch-IsAt, take_off-IsAt, put_on-IsAt}

module _ (r c m w : ℕ) (p : List ℕ) where
  -- another registry
  IsAt-register :
      (t : Scheduler) (d : Dict ℕ) → IsAt r c m w p t → IsAt r c m w p (record t { backends = d })
  IsAt-register t d h = record { conn = h.conn; next = h.next; least = h.least; waits = h.waits }

  add_backend-IsAt :
      (t : Scheduler) (b : ℕ) → IsAt r c m w p t → OnDone (IsAt r c m w p) (add_backend t b)
  unfolding add_backend
  add_backend-IsAt t b h =
      put_on-IsAt r c m w p (record t { backends = insert (t.pool.mem b).address b t.backends }) b
        (IsAt-register t _ h)

  remove_backend-IsAt :
      (t : Scheduler) (a : String) → IsAt r c m w p t → OnDone (IsAt r c m w p) (remove_backend t a)
  unfolding remove_backend
  remove_backend-IsAt t a h = elim (Option-cases (lookup a t.backends)) [
    | inl unknown ↦ rw (unknown, remove_backend) h
    | inr (b, known) ↦
        rw (known, remove_backend)
          (OnDone->> (IsAt r c m w p) _ (take_off t b) _ (take_off-IsAt r c m w p t b h)
            (λ u k. IsAt-register u _ k))
  ]

  review-IsAt :
      (known active : Dict ℕ) (t : Scheduler) (k : Dict ℕ → Scheduler → Exec)
      → IsAt r c m w p t
      → ((rest : Dict ℕ) (u : Scheduler) → IsAt r c m w p u → OnDone (IsAt r c m w p) (k rest u))
      → OnDone (IsAt r c m w p) (review known active t k)
  unfolding review
  review-IsAt [] active t k h more = more active t h
  review-IsAt ((a, b) ∷ known) active t k h more = elim (Option-cases (lookup a active)) [
    | inl gone ↦
        rw (gone, review)
          (OnDone->> (IsAt r c m w p) _ (remove_backend t a) _ (remove_backend-IsAt t a h)
            (λ u i. review-IsAt known active u k i more))
    | inr (v, listed) ↦ elim (Option-cases (t.pool.mem b).index) [
      | inl off ↦
          rw (listed, review, off)
            (OnDone->> (IsAt r c m w p) _ (put_on t b) _ (put_on-IsAt r c m w p t b h)
              (λ u i. review-IsAt known (delete a active) u k i more))
      | inr (i, on) ↦ rw (listed, review, on) (review-IsAt known (delete a active) t k h more)
    ]
  ]

  allocate-IsAt :
      (env : Env) (t : Scheduler) (a : String)
      → IsAt r c m w p t
      → IsAt r c m w p (allocate env t a)
  unfolding allocate
  allocate-IsAt env t a h = record {
    conn = h.conn;
    next = h.next;
    least =
        omega (arith, closings-append c t.effects (sessions t.next_backend t.tunnels 0), h.least);
    waits = h.waits;
  }

  bring_up_all-IsAt :
      (env : Env) (addrs : List String) (t : Scheduler)
      → IsAt r c m w p t
      → OnDone (IsAt r c m w p) (bring_up_all env addrs t)
  unfolding bring_up_all bring_up
  bring_up_all-IsAt env [] t h = h
  bring_up_all-IsAt env (a ∷ addrs) t h =
      let k = allocate-IsAt env t a h in
      elim (Bool-cases (ltb 0 t.tunnels)) [
        | inl tunnelled ↦ rw tunnelled (bring_up_all-IsAt env addrs (allocate env t a) k)
        | inr plain ↦ rw plain (
            OnDone->> (IsAt r c m w p) _ (add_backend (allocate env t a) t.next_backend)
              (bring_up_all env addrs) (add_backend-IsAt (allocate env t a) t.next_backend k)
              (λ u i. bring_up_all-IsAt env addrs u i))
      ]

  pub on_status-IsAt :
      (env : Env) (t : Scheduler) (active : Dict ℕ)
      → IsAt r c m w p t
      → OnDone (IsAt r c m w p) (on_status env t active)
  unfolding on_status
  on_status-IsAt env t active h =
      review-IsAt t.backends active t _ h
        (λ rest u k. bring_up_all-IsAt env (ordered_names env rest) u k)

  -- more effects, none of which closes a client
  pub IsAt-effects :
      (t : Scheduler) (b : ℕ) (v : Backend) (es : List Effect)
      → IsAt r c m w p t
      → IsAt r c m w p (set_backend (record t { effects = t.effects ++ es }) b v)
  IsAt-effects t b v es h = record {
    conn = h.conn;
    next = h.next;
    least = omega (arith, closings-append c t.effects es, h.least);
    waits = h.waits;
  }

-- the loop over the requests that wait finds a place for each of them
drain-IsAt :
    (r c m w : ℕ) (p : List ℕ) (env : Env) (rs : List ℕ) (s : Scheduler)
    → Inv (waiting s rs)
    → 0 < s.pool.len
    → IsAt r c m w p s
    → OnDone (IsAt r c m (mult r rs + w) p) (drain env rs s)
unfolding drain
drain-IsAt r c m w p env [] s i up h = record {
  conn = h.conn;
  next = h.next;
  least = omega (arith, h.least);
  waits = h.waits;
}
drain-IsAt r c m w p env (x ∷ rs) s i up h =
    let (t, run, (j, up', kept)) = drain_one env s x rs i up in
    let k : IsAt r c m (mult r (x ∷ []) + w) p t =
      subst (OnDone (IsAt r c m (mult r (x ∷ []) + w) p)) run
        (dispatch-IsAt r c m w p env s x (ground arith) h) in
    rw run (
      OnDone-map _ _ (drain env rs t)
        (λ u g. record {
          conn = g.conn;
          next = g.next;
          least = omega (arith, g.least);
          waits = g.waits;
        })
        (drain-IsAt r c m (mult r (x ∷ []) + w) p env rs t j up' k))

module _ (r c m w : ℕ) (p : List ℕ) where
  drained-IsIn :
      (env : Env) (t : Scheduler)
      → Inv t
      → 0 < t.pool.len
      → IsAt r c m w p t
      → OnDone (IsIn r c m (mult r p + w)) (
          if ltb 0 (length t.pending) && ltb 0 t.pool.len
          then (drain env t.pending t >> λ u. done (record u { pending = [] }))
          else done t)
  drained-IsIn env t i up h = elim (list_cases t.pending) [
    | inl nobody ↦
        let guard : (ltb 0 (length t.pending) && ltb 0 t.pool.len) ≡ false =
          ap (λ l. ltb 0 (length l) && ltb 0 t.pool.len) nobody in
        rw guard (IsAt-IsIn r c m w p t h)
    | inr some_wait ↦
        let guard : (ltb 0 (length t.pending) && ltb 0 t.pool.len) ≡ true = ground arith in
        rw guard (
          OnDone->> _ _ (drain env t.pending t) _ (drain-IsAt r c m w p env t.pending t i up h)
            (λ u k. record {
              conn = k.conn;
              next = k.next;
              least = omega (arith, k.least, ap (mult r) h.waits);
            }))
  ]

  pub enlist-IsIn :
      (env : Env) (s : Scheduler) (b : ℕ)
      → Inv s
      → b < s.next_backend
      → s.pool.len < s.pool.cap
      → IsAt r c m w p s
      → OnDone (IsIn r c m (mult r p + w)) (enlist env s b)
  unfolding enlist
  enlist-IsIn env s b i old room h =
      elim (Option-cases (lookup (s.pool.mem b).address s.backends)) [
        | inr (a, known) ↦ rw (known, enlist) (IsAt-IsIn r c m w p s h)
        | inl new ↦
            let (t, run, (moved, names, up)) = add_backend-Moved s i.places b old new room in
            let k : IsAt r c m w p t =
              subst (OnDone (IsAt r c m w p)) run (add_backend-IsAt r c m w p s b h) in
            rw (new, enlist, run) (drained-IsIn env t (Moved-Inv 1 s t i moved) up k)
      ]
