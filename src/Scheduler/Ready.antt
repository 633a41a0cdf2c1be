-- ===== src/Scheduler/Ready.antt =====
-- The case of newTunnelChan keeps the invariant and drains the requests that wait.
use Prim.Native.String.{String}
use gbalancer.Prelude.{
  ℕ, ◌<◌, ◌≡◌, refl, ap, not, ◌∙◌, inl, inr, List, [], Option-cases, some, none, arith, ltb, ◌++◌,
  ◌==◌, ◌&&◌, true, false, if◌then◌else◌,
}
use text.Mathlib.Text.{◌==◌ as str_eq}
use text.Mathlib.TextEquality.{eq_iff}
use gbalancer.Prelude.Dict.{lookup, has, lookup-insert}
use gbalancer.Prelude.Lists.{length, get_elem?, set}
use gbalancer.Backend.{ConnTunnel, Backend, switch_spdy_conn}
use gbalancer.Backend.Check.{SameEntry}
use gbalancer.State.{Session, Effect, Scheduler, Env, Ends, done, ◌>>◌}
use gbalancer.Scheduler.{set_backend, drain, enlist, closing, on_ready}
use gbalancer.Scheduler.Keep.{SameEntry-Places}
use gbalancer.Scheduler.Moves.{add_backend-Moved}
use gbalancer.Scheduler.Invariant.{Inv}
use gbalancer.Scheduler.Waiting.{Kept, drain-Inv, list_cases, Moved-Inv}

-- The address of the backend is registered, if it was not before, and no other changes.
pub record Enlisted (s : Scheduler) (b : ℕ) (t : Scheduler) : Type 0 where
  pub keys :
      (x : String)
      → lookup x t.backends ≡ (
          if str_eq (s.pool.mem b).address x && not (has (lookup x s.backends))
          then some b
          else lookup x s.backends)
  pub tunnels : t.tunnels ≡ s.tunnels

module _ (env : Env) (s : Scheduler) (i : Inv s) where
  enlist-Inv :
      (b : ℕ)
      → b < s.next_backend
      → s.pool.len < s.pool.cap
      → Ends
          (λ t.
            Inv t
            × (lookup (s.pool.mem b).address s.backends ≡ none → t.pending ≡ [])
            × Enlisted s b t)
          (enlist env s b)
  unfolding enlist
  enlist-Inv b old room = elim (Option-cases (lookup (s.pool.mem b).address s.backends)) [
    | inr (c, known) ↦
        rw (known, enlist)
          (
            _,
            refl,
            (
              i,
              λ new. cc,
              record {
                keys = λ x. ground (arith, eq_iff (s.pool.mem b).address x, known);
                tunnels = refl;
              },
            ),
          )
    | inl new ↦
        let (t, run, (m, names, up)) = add_backend-Moved s i.places b old new room in
        let (u, run', (j, e, (same, tunnels))) = all t (Moved-Inv 1 s t i m) up in
        rw (new, enlist, run)
          (
            u,
            run',
            (
              j,
              λ _. e,
              record {
                keys = λ x. ground (
                  arith,
                  same,
                  names,
                  lookup-insert (s.pool.mem b).address x b s.backends,
                  eq_iff (s.pool.mem b).address x,
                  new,
                );
                tunnels = tunnels ∙ m.apart.tunnels;
              },
            ),
          )
  ]
    where
      all :
          (t : Scheduler)
          → Inv t
          → 0 < t.pool.len
          → Ends
              (λ u. Inv u × (u.pending ≡ []) × Kept t u)
              (if ltb 0 (length t.pending) && ltb 0 t.pool.len
                then (drain env t.pending t >> λ u. done (record u { pending = [] }))
                else done t)
      all t j up = elim (list_cases t.pending) [
        | inl nobody ↦
            let guard : (ltb 0 (length t.pending) && ltb 0 t.pool.len) ≡ false =
              ap (λ l. ltb 0 (length l) && ltb 0 t.pool.len) nobody in
            rw guard (t, refl, (j, nobody, (refl, refl)))
        | inr some_wait ↦
            let guard : (ltb 0 (length t.pending) && ltb 0 t.pool.len) ≡ true = ground arith in
            let (u, run, (k, (same, tunnels))) = drain-Inv env t.pending t j up in
            rw (guard, run) (_, refl, (k, refl, (same, tunnels)))
      ]

-- a backend is replaced by one that the heap does not tell from it
pub replace-Inv :
    (s : Scheduler) (b : ℕ) (v : Backend) (f : List Effect)
    → Inv s
    → SameEntry (s.pool.mem b) v
    → Inv (set_backend (record s { effects = f }) b v)
replace-Inv s b v f i e = Moved-Inv 0 s _ i (record {
  apart = record {
    requests = refl;
    next_request = refl;
    pending = refl;
    running = refl;
    finished = refl;
    cap = refl;
    later = omega arith;
    tunnels = refl;
    counts = λ c. ground (arith, e.ongoing);
  };
  places = SameEntry-Places s.pool s.backends s.next_backend b i.places v e;
  grows = omega arith;
})

-- a backend with another tunnel in place of one of its own
abbrev pub with_tunnel : Backend → ℕ → ConnTunnel → Backend
with_tunnel v k to = record v { tunnel = set v.tunnel k (record to { switching = false }) }

pub with_tunnel-SameEntry :
    (v : Backend) (k : ℕ) (to : ConnTunnel) → SameEntry v (with_tunnel v k to)
with_tunnel-SameEntry v k to = record {
  index = refl;
  ongoing = refl;
  weight = refl;
  address = refl;
}

-- a session with a tunnel, for one that the backend has
module _ (env : Env) (s : Scheduler) (i : Inv s) (x : Session) (to from : ConnTunnel)
    (made : x.spdy ≡ some to)
    (has : get_elem? (s.pool.mem x.backend).tunnel x.connindex ≡ some from)
    (old : x.backend < s.next_backend) (room : s.pool.len < s.pool.cap) where
  -- In a state that satisfies the invariant and with room on the heap, the case of newTunnelChan
  -- returns and keeps the invariant, for a session with a tunnel in place of one that the backend has.
  -- If the backend's address was not registered, no request is left waiting and the backend is
  -- registered; no other entry of the registry changes.
  pub on_ready-Inv :
      Ends
        (λ t.
          Inv t
          × (lookup (s.pool.mem x.backend).address s.backends ≡ none → t.pending ≡ [])
          × Enlisted s x.backend t)
        (on_ready env s x)
  unfolding on_ready switch_spdy_conn
  on_ready-Inv =
      let v = with_tunnel (s.pool.mem x.backend) x.connindex to in
      let same = with_tunnel-SameEntry (s.pool.mem x.backend) x.connindex to in
      let f = s.effects ++ closing (switch_spdy_conn (s.pool.mem x.backend) x.connindex x.spdy).0 in
      let (t, run, (j, empty, listed)) =
        enlist-Inv env (set_backend (record s { effects = f }) x.backend v)
          (replace-Inv s x.backend v f i same) x.backend old room in
      let self : (x.backend == x.backend) ≡ true = ground arith in
      rw (on_ready, switch_spdy_conn, has, made, run)
        (
          t,
          refl,
          (
            j,
            λ new. empty (rw self new),
            record { keys = λ a. ground (arith, listed.keys a, self); tunnels = listed.tunnels },
          ),
        )
