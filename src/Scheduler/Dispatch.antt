-- ===== src/Scheduler/Dispatch.antt =====
-- What dispatch does, and that it keeps the invariant.
use gbalancer.Prelude.{
  ℕ, ◌+◌, ◌≤◌, ◌<◌, ◌≡◌, refl, inl, inr, [], ◌∷◌, ◌++◌, arith, Bool-cases, leb, ◌==◌, ◌%◌, ◌^◌,
}
use gbalancer.Pool.{Pool, rank}
use gbalancer.Heap.Contract.{InPool, IsOrdered, Taken}
use gbalancer.Heap.Remove.{take_top-Taken}
use gbalancer.State.{Scheduler, Env, Ends, close_client, max_forwarders_per_backend}
use gbalancer.Scheduler.{set_pool, start, admit, dispatch}
use gbalancer.Scheduler.Readd.{Recounted, Recounted-cast, readd_same, readd_counted}

-- a backend of the pool with the least rank
pub record IsBest (p : Pool) (b : ℕ) : Type 0 where
  pub inside : InPool p b
  pub least : (c : ℕ) → InPool p c → rank p b ≤ rank p c

-- The three outcomes of dispatch: the request waits, its client is closed, or it is started.
pub data Dispatched (env : Env) (s : Scheduler) (r : ℕ) (t : Scheduler) : Type 0 where
  waits : s.pool.len ≡ 0 → t ≡ record s { pending = s.pending ++ r ∷ [] } → Dispatched env s r t
  sheds :
      (b : ℕ) (q : Pool)
      → IsBest s.pool b
      → max_forwarders_per_backend ≤ (s.pool.mem b).ongoing
      → Recounted s.pool b (s.pool.mem b).ongoing q
      → t ≡ record s { pool = q; effects = s.effects ++ close_client (s.requests r).conn ∷ [] }
      → Dispatched env s r t
  starts :
      (b : ℕ) (q : Pool)
      → IsBest s.pool b
      → (s.pool.mem b).ongoing < max_forwarders_per_backend
      → Recounted s.pool b ((s.pool.mem b).ongoing + 1) q
      → t ≡ start env (set_pool s q) b r
      → Dispatched env s r t

module _ (env : Env) (s : Scheduler) (r : ℕ) (w : IsOrdered s.pool) where
  admit-Dispatched :
      (b : ℕ) (p : Pool)
      → Taken s.pool b p
      → IsBest s.pool b
      → Ends (Dispatched env s r) (admit env (set_pool s p) b r)
  unfolding admit
  admit-Dispatched b p t best =
      let same : (p.mem b).ongoing ≡ (s.pool.mem b).ongoing = ground (arith, t.keeps.body b) in
      elim (Bool-cases (leb max_forwarders_per_backend (p.mem b).ongoing)) [
        | inl full ↦
            let (q, run, c) = readd_same s.pool p b w t in
            rw (full, run) (_, refl, sheds b q best (ground arith) c refl)
        | inr free ↦
            let (q, run, c) = readd_counted s.pool p b w t (((p.mem b).ongoing + 1) % 2 ^ 64) in
            let n : ((p.mem b).ongoing + 1) % 2 ^ 64 ≡ (s.pool.mem b).ongoing + 1 = ground arith in
            rw (free, run) (_, refl, starts b q best (ground arith) (Recounted-cast n c) refl)
      ]

  -- For a heap in order dispatch returns with one of three outcomes: the heap is empty and the request
  -- waits; the least backend is full and the client is closed; or the least backend has room and the
  -- request is started on it, with its count one higher. The heap stays in order.
  pub dispatch-Dispatched : Ends (Dispatched env s r) (dispatch env s r)
  unfolding dispatch
  dispatch-Dispatched = elim (Bool-cases (s.pool.len == 0)) [
    | inl empty ↦ rw empty (_, refl, waits (ground arith) refl)
    | inr filled ↦
        let ((b, p), run, (t, least)) = take_top-Taken s.pool w (ground arith) in
        rw (filled, run) (admit-Dispatched b p t (record { inside = t.was_in; least = least }))
  ]
