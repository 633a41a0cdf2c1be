-- ===== src/Scheduler/Whole.antt =====
-- A client from its connection to the end of its request.
use gbalancer.Prelude.{
  ℕ, ◌<◌, ◌≡◌, refl, ap, subst, ◌∙◌, true, false, ◌==◌, ==_iff, [], ◌∷◌, ◌++◌, Option, some, arith,
}
use Prim.Native.String.{String}
use gbalancer.Prelude.Lists.{mult}
use gbalancer.Backend.{Dialed}
use gbalancer.Heap.Contract.{InPool}
use gbalancer.State.{Scheduler, Env, Exec, Ends, ◌>>◌, max_forwarders_per_backend}
use gbalancer.Scheduler.{finish}
use gbalancer.Scheduler.Invariant.{Inv, tally}
use gbalancer.Scheduler.Serve.{on_job, on_job-Inv}
use gbalancer.Scheduler.Running.{drop_one, run}
use gbalancer.Scheduler.Running.Laws.{run-Inv}
use gbalancer.Scheduler.Finish.{finish-Inv}
use gbalancer.Scheduler.Kept.{Always}
use gbalancer.Scheduler.Reach.{after, Ends-at}
use gbalancer.Scheduler.Client.{
  HasPool, finish-HasPool, Begun, on_job-Begun, Ran, Connects, run-Ran, tally-others,
}

-- A client's connection, the goroutine for its request with both copies at their end without an
-- error, and the end of the request, one after another.
abbrev pub serve_client : Env → Env → (ℕ → Option ℕ) → (String → Dialed) → Scheduler → ℕ → Exec
serve_client env later create dial s conn = on_job env s conn >> λ t.
    run create dial (some true) t s.next_request >> λ u.
    finish later (record u { finished = [] }) s.next_request

module _ (env later : Env) (create : ℕ → Option ℕ) (dial : String → Dialed) (s : Scheduler) where
  finished-Served :
      (t u : Scheduler)
      → Inv s
      → s.finished ≡ []
      → Begun s s.next_request t
      → Ran t s.next_request u
      → Inv u
      → Ends
          (λ w.
            Inv w
            × (w.running ≡ s.running)
            × (w.pending ≡ s.pending)
            × (w.finished ≡ [])
            × (w.backends ≡ s.backends)
            × ((b : ℕ) → (w.pool.mem b).ongoing ≡ (s.pool.mem b).ongoing))
          (finish later (record u { finished = [] }) s.next_request)
  finished-Served t u i empty begun ran j =
      let r = s.next_request in
      let self : (r == r) ≡ true = (==_iff r r).1 refl in
      let (b, for) = begun.backend in
      let head : u.finished ≡ r ∷ [] =
        ran.finished ∙ ap (λ l. l ++ r ∷ []) (begun.finished ∙ empty) in
      let (w, run, k) = finish-Inv later u r [] j head in
      let (p, e) =
        subst (Always (HasPool (record u { finished = [] }))) run
          (finish-HasPool later (record u { finished = [] }) r b (ran.backend ∙ for) ran.err) in
      let back : drop_one r (r ∷ s.running) ≡ s.running = unfold drop_one in rw self refl in
      let running : w.running ≡ s.running =
        rw e (ran.running ∙ ap (drop_one r) begun.running ∙ back) in
      let finished : w.finished ≡ [] = rw e refl in
      let others : (x : ℕ) → (r == x) ≡ false → w.requests x ≡ s.requests x =
        rw e (λ x other. ran.others x other ∙ begun.others x other) in
      let out : mult r s.running ≡ 0 = omega (arith, i.books.unborn r (omega arith)) in
      (
        w,
        run,
        (
          k,
          running,
          rw e (ran.pending ∙ begun.pending),
          finished,
          rw e (ran.backends ∙ begun.backends),
          λ d.
              let same : tally w.requests d w.running ≡ tally s.requests d s.running =
                ap (tally w.requests d) running
                ∙ tally-others s.requests w.requests d r s.running others out in
              let gone : tally w.requests d w.finished ≡ 0 = ap (tally w.requests d) finished in
              let gone' : tally s.requests d s.finished ≡ 0 = ap (tally s.requests d) empty in
              omega (arith, k.books.busy d, i.books.busy d, same, gone, gone'),
        ),
      )

  -- In a state that satisfies the invariant, in the mode of the fewest connections and with no request
  -- in the channel `done`, a client comes while some backend on the heap has room, and the backends can
  -- be connected to: its request is started, runs to its end, both copies without an error, and is
  -- finished, with nothing else in between and without a panic; the invariant holds again, and the counts
  -- of all backends, the registry and the requests that wait and run are as they were before.
  pub serve_client-Served :
      (conn c : ℕ)
      → Inv s
      → s.pool.leastweight ≡ false
      → s.finished ≡ []
      → InPool s.pool c
      → (s.pool.mem c).ongoing < max_forwarders_per_backend
      → Connects create dial
      → Ends
          (λ w.
            Inv w
            × (w.running ≡ s.running)
            × (w.pending ≡ s.pending)
            × (w.finished ≡ [])
            × (w.backends ≡ s.backends)
            × ((b : ℕ) → (w.pool.mem b).ongoing ≡ (s.pool.mem b).ongoing))
          (serve_client env later create dial s conn)
  serve_client-Served conn c i fewest empty inside room connects =
      let r = s.next_request in
      let (t, went, begun) = on_job-Begun env s conn c i fewest inside room in
      let i' = Ends-at {P = Inv} t (on_job-Inv env s conn i) (ap after went) in
      let (b, for) = begun.backend in
      let (u, ended, ran) = run-Ran create dial t r b connects for begun.err in
      let started : 0 < mult r t.running = ground (arith, ap (mult r) begun.running) in
      let j =
        Ends-at {P = Inv} u (run-Inv create dial (some true) t r i' started) (ap after ended) in
      rw (went, ended) (finished-Served t u i empty begun ran j)
