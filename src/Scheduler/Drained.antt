-- ===== src/Scheduler/Drained.antt =====
-- The requests that wait when a session comes, in engine/native/scheduler.go.
use gbalancer.Prelude.{
  ℕ, suc, ◌+◌, ◌≤◌, ◌<◌, ◌==◌, ◌≡◌, refl, sym, ap, ◌∙◌, inl, inr, true, false, ◌&&◌, List, [], ◌∷◌,
  ◌++◌, none, some, arith, if◌then◌else◌, ltb,
}
use gbalancer.Prelude.Dict.{lookup}
use gbalancer.Prelude.Lists.{length, get_elem?}
use gbalancer.Backend.{ConnTunnel, switch_spdy_conn}
use gbalancer.Pool.{Pool}
use gbalancer.Heap.Contract.{InPool}
use gbalancer.Heap.Add.{add-Added}
use gbalancer.State.{Scheduler, Session, Env, Ends, done, ◌>>◌, max_forwarders_per_backend}
use gbalancer.Scheduler.{start, set_backend, closing, add_backend, drain, enlist, on_ready}
use gbalancer.Scheduler.Dispatch.{Dispatched, waits, sheds, starts, dispatch-Dispatched}
use gbalancer.Scheduler.Invariant.{Inv}
use gbalancer.Scheduler.Moves.{add_backend-Moved}
use gbalancer.Scheduler.Waiting.{waiting, drain_one, list_cases, Moved-Inv}
use gbalancer.Scheduler.Ready.{replace-Inv, with_tunnel, with_tunnel-SameEntry}
use gbalancer.Scheduler.Reach.{Ends-at, after}
use gbalancer.Scheduler.Balance.{Spread, Dispatched-Spread}

-- the requests in front of the others, each before those that came earlier
abbrev pub onto : List ℕ → List ℕ → List ℕ
onto [] l = l
onto (r ∷ rs) l = onto rs (r ∷ l)

-- on the heap, in the mode of the fewest connections, and with room for `n` requests
pub record HasRoom (p : Pool) (c n : ℕ) : Type 0 where
  pub mode : p.leastweight ≡ false
  pub inside : InPool p c
  pub room : (p.mem c).ongoing + n ≤ max_forwarders_per_backend

dispatch-HasRoom :
    (env : Env) (s t : Scheduler) (r c n : ℕ)
    → HasRoom s.pool c (suc n)
    → Dispatched env s r t
    → HasRoom t.pool c n × (t.running ≡ r ∷ s.running)
dispatch-HasRoom env s t r c n h (waits empty e) =
    absurd (let (k, below, here) = h.inside in omega (arith, below, empty))
dispatch-HasRoom env s t r c n h (sheds b q best full k e) =
    absurd (ground (arith, best.least c h.inside, full, h.room, h.mode))
dispatch-HasRoom env s t r c n h (starts b q best room k e) = (
  spread_room (Dispatched-Spread env s r t (starts b q best room k e)),
  ap (λ u. u.running) e ∙ (unfold start in refl),
)
  where
    spread_room : Spread s.pool t.pool → HasRoom t.pool c n
    spread_room (inl (empty, same)) =
        absurd (let (k, below, here) = h.inside in omega (arith, below, empty))
    spread_room (inr (d, counts)) = record {
      mode = counts.mode ∙ h.mode;
      inside = (counts.entries c).1 h.inside;
      room = ground (arith, counts.count c, h.room);
    }

drain-onto :
    (env : Env) (rs : List ℕ) (s : Scheduler) (c : ℕ)
    → Inv (waiting s rs)
    → HasRoom s.pool c (length rs)
    → Ends (λ t. t.running ≡ onto rs s.running) (drain env rs s)
unfolding drain
drain-onto env [] s c i h = (s, refl, refl)
drain-onto env (r ∷ rs) s c i h =
    let (t, run, d) = dispatch-Dispatched env s r i.places.ordered in
    let up : 0 < s.pool.len = let (k, below, here) = h.inside in omega (arith, below) in
    let (j, up', kept) = Ends-at t (drain_one env s r rs i up) (ap after run) in
    let (room, begun) = dispatch-HasRoom env s t r c (length rs) h d in
    let (u, ended, all) = drain-onto env rs t c j room in
    rw run (u, ended, all ∙ ap (onto rs) begun)

-- what the new backend finds
record Added (s t : Scheduler) (b : ℕ) : Type 0 where
  inside : InPool t.pool b
  count : (t.pool.mem b).ongoing ≡ (s.pool.mem b).ongoing
  mode : t.pool.leastweight ≡ s.pool.leastweight
  running : t.running ≡ s.running
  pending : t.pending ≡ s.pending

add_backend-Added :
    (s : Scheduler) (b : ℕ)
    → Inv s
    → lookup (s.pool.mem b).address s.backends ≡ none
    → s.pool.len < s.pool.cap
    → Ends (λ t. Added s t b) (add_backend s b)
unfolding add_backend
add_backend-Added s b i free room =
    let (q, run, a) =
      add-Added s.pool b i.places.ordered room (λ at. ground (arith, i.places.listed b at)) in
    rw run (
      _,
      refl,
      record {
        inside = (a.entries b).1 (inl refl);
        count = ground (arith, a.keeps.body b);
        mode = a.keeps.same_mode;
        running = refl;
        pending = refl;
      },
    )

module _ (env : Env) where
  all_started :
      (t : Scheduler) (b : ℕ)
      → Inv t
      → HasRoom t.pool b (length t.pending)
      → Ends
          (λ u. (u.running ≡ onto t.pending t.running) × (u.pending ≡ []))
          (if ltb 0 (length t.pending) && ltb 0 t.pool.len
            then (drain env t.pending t >> λ u. done (record u { pending = [] }))
            else done t)
  all_started t b i h = elim (list_cases t.pending) [
    | inl nobody ↦
        let guard : (ltb 0 (length t.pending) && ltb 0 t.pool.len) ≡ false =
          ap (λ l. ltb 0 (length l) && ltb 0 t.pool.len) nobody in
        rw guard (t, refl, (ap (λ l. onto l t.running) (sym nobody), nobody))
    | inr some_wait ↦
        let (k, below, here) = h.inside in
        let guard : (ltb 0 (length t.pending) && ltb 0 t.pool.len) ≡ true = ground (arith, below) in
        let (u, run, begun) = drain-onto env t.pending t b i h in
        rw (guard, run) (_, refl, (begun, refl))
  ]

  enlist-started :
      (s : Scheduler) (b : ℕ)
      → Inv s
      → b < s.next_backend
      → lookup (s.pool.mem b).address s.backends ≡ none
      → s.pool.len < s.pool.cap
      → s.pool.leastweight ≡ false
      → (s.pool.mem b).ongoing + length s.pending ≤ max_forwarders_per_backend
      → Ends (λ u. (u.running ≡ onto s.pending s.running) × (u.pending ≡ [])) (enlist env s b)
  unfolding enlist
  enlist-started s b i old new free fewest room =
      let (t, run, (m, names, up)) = add_backend-Moved s i.places b old new free in
      let a = Ends-at t (add_backend-Added s b i new free) (ap after run) in
      let (u, run', (begun, none_left)) = all_started t b (Moved-Inv 1 s t i m) (record {
        mode = a.mode ∙ fewest;
        inside = a.inside;
        room = omega (arith, a.count, ap length a.pending, room);
      }) in
      rw (new, enlist, run)
        (
          u,
          run',
          (begun ∙ ap (λ l. onto l t.running) a.pending ∙ ap (onto s.pending) a.running, none_left),
        )

  -- In a state that satisfies the invariant, in the mode of the fewest connections and with room on
  -- the heap, the case of newTunnelChan for a session with a tunnel in place of one that the backend
  -- has: if the address of the backend is not registered, and the backend has room for all requests
  -- that wait, then all of them are started, in the order of their arrival, and none is left waiting.
  pub on_ready-starts :
      (s : Scheduler) (x : Session) (to from : ConnTunnel)
      → Inv s
      → x.spdy ≡ some to
      → get_elem? (s.pool.mem x.backend).tunnel x.connindex ≡ some from
      → x.backend < s.next_backend
      → lookup (s.pool.mem x.backend).address s.backends ≡ none
      → s.pool.len < s.pool.cap
      → s.pool.leastweight ≡ false
      → (s.pool.mem x.backend).ongoing + length s.pending ≤ max_forwarders_per_backend
      → Ends (λ u. (u.running ≡ onto s.pending s.running) × (u.pending ≡ [])) (on_ready env s x)
  unfolding on_ready switch_spdy_conn
  on_ready-starts s x to from i made there old new free fewest room =
      let v = with_tunnel (s.pool.mem x.backend) x.connindex to in
      let same = with_tunnel-SameEntry (s.pool.mem x.backend) x.connindex to in
      let f = s.effects ++ closing (switch_spdy_conn (s.pool.mem x.backend) x.connindex x.spdy).0 in
      let self : (x.backend == x.backend) ≡ true = ground arith in
      rw (on_ready, switch_spdy_conn, there, made)
        (enlist-started (set_backend (record s { effects = f }) x.backend v) x.backend
          (replace-Inv s x.backend v f i same) old (rw self new) free fewest (rw self room))
