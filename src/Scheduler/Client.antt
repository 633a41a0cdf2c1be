-- ===== src/Scheduler/Client.antt =====
-- The three parts of a client's way: its request is started, runs, and is finished.
use gbalancer.Prelude.{
  ℕ, ◌<◌, ◌≡◌, refl, true, false, ◌==◌, ==_iff, List, [], ◌∷◌, ◌++◌, Option, none, some, arith, inl,
  inr, Option-cases,
}
use Prim.Native.String.{String}
use gbalancer.Prelude.Lists.{mult}
use gbalancer.Backend.{Backend, Dialed, connected, forwarder_new_connection}
use gbalancer.Pool.{Pool}
use gbalancer.Heap.{add, remove}
use gbalancer.Heap.Contract.{InPool}
use gbalancer.State.{Request, Scheduler, Env, Ends, ◌>>◌, max_forwarders_per_backend}
use gbalancer.Scheduler.{start, leave, set_pool, take_off, put_on, finish}
use gbalancer.Scheduler.Invariant.{Inv, tally, serves}
use gbalancer.Scheduler.Dispatch.{Dispatched, waits, sheds, starts, dispatch-Dispatched}
use gbalancer.Scheduler.Serve.{accept, on_job}
use gbalancer.Scheduler.Running.{drop_one, outcome, forward, complete, settle, run}
use gbalancer.Scheduler.Kept.{Always, Always->>, Always-on_pool}

-- a state that differs from another one in the pool alone
abbrev pub HasPool : Scheduler → Scheduler → Type 0
HasPool s t = (p : Pool) × (t ≡ set_pool s p)

take_off-HasPool : (s : Scheduler) (b : ℕ) → Always (HasPool s) (take_off s b)
take_off-HasPool s b = elim (Option-cases (s.pool.mem b).index) [
  | inl off ↦ rw (off, take_off) (s.pool, refl)
  | inr (i, on) ↦
      rw (on, take_off)
        (Always-on_pool (HasPool s) s (remove s.pool i) _ (s.pool, refl) (λ (x, p). (p, refl)))
]

put_on-HasPool : (s t : Scheduler) (b : ℕ) → HasPool s t → Always (HasPool s) (put_on (leave t b) b)
put_on-HasPool s t b (p, e) = rw e (
    Always-on_pool (HasPool s) (leave (set_pool s p) b) (add (leave (set_pool s p) b).pool b) _
      (_, refl) (λ q. (q, refl)))

-- finish of a request without an error touches the pool alone
pub finish-HasPool :
    (env : Env) (s : Scheduler) (r b : ℕ)
    → (s.requests r).backend ≡ some b
    → (s.requests r).err ≡ none
    → Always (HasPool s) (finish env s r)
unfolding finish
finish-HasPool env s r b for fine = elim (Option-cases (s.pool.mem b).index) [
  | inl off ↦ rw (for, finish, fine, off) (_, refl)
  | inr (i, on) ↦
      rw (for, finish, fine, on)
        (Always->> (HasPool s) (take_off s b) (λ t. put_on (leave t b) b) (take_off-HasPool s b)
          (λ t h. put_on-HasPool s t b h))
]

-- a request that has been started on a backend
pub record Begun (s : Scheduler) (r : ℕ) (t : Scheduler) : Type 0 where
  pub running : t.running ≡ r ∷ s.running
  pub pending : t.pending ≡ s.pending
  pub finished : t.finished ≡ s.finished
  pub backends : t.backends ≡ s.backends
  pub backend : (b : ℕ) × ((t.requests r).backend ≡ some b)
  pub err : (t.requests r).err ≡ none
  pub others : (x : ℕ) → (r == x) ≡ false → t.requests x ≡ s.requests x

pub on_job-Begun :
    (env : Env) (s : Scheduler) (conn c : ℕ)
    → Inv s
    → s.pool.leastweight ≡ false
    → InPool s.pool c
    → (s.pool.mem c).ongoing < max_forwarders_per_backend
    → Ends (Begun s s.next_request) (on_job env s conn)
unfolding on_job accept
on_job-Begun env s conn c i fewest inside room =
    let (t, run, d) = dispatch-Dispatched env (accept s conn) s.next_request i.places.ordered in
    (t, run, begun t d)
  where
    begun :
        (t : Scheduler) → Dispatched env (accept s conn) s.next_request t → Begun s s.next_request t
    begun t (waits empty e) = absurd (let (j, hi, _) = inside in omega (arith, hi, empty))
    begun t (sheds b q best full _ e) = absurd (ground (arith, best.least c inside))
    begun t (starts b q best free _ e) = rw e (
        let self : (s.next_request == s.next_request) ≡ true =
          (==_iff s.next_request s.next_request).1 refl in
        unfold start in
        record {
          running = refl;
          pending = refl;
          finished = refl;
          backends = refl;
          backend = (b, rw self refl);
          err = rw self refl;
          others = λ x other. rw other refl;
        })

-- a request whose run has ended without an error
pub record Ran (t : Scheduler) (r : ℕ) (u : Scheduler) : Type 0 where
  pub running : u.running ≡ drop_one r t.running
  pub pending : u.pending ≡ t.pending
  pub finished : u.finished ≡ t.finished ++ r ∷ []
  pub backends : u.backends ≡ t.backends
  pub backend : (u.requests r).backend ≡ (t.requests r).backend
  pub err : (u.requests r).err ≡ none
  pub others : (x : ℕ) → (r == x) ≡ false → u.requests x ≡ t.requests x

-- the tunnels and the dial give a connection to every backend
abbrev pub Connects : (ℕ → Option ℕ) → (String → Dialed) → Type 0
Connects create dial =
    (v : Backend) → (c : ℕ) × ((forwarder_new_connection create dial v).0 ≡ connected c)

pub run-Ran :
    (create : ℕ → Option ℕ) (dial : String → Dialed) (t : Scheduler) (r b : ℕ)
    → Connects create dial
    → (t.requests r).backend ≡ some b
    → (t.requests r).err ≡ none
    → Ends (Ran t r) (run create dial (some true) t r)
unfolding run forward settle complete outcome
run-Ran create dial t r b connects for fine =
    let self : (r == r) ≡ true = (==_iff r r).1 refl in
    let (c, served) = connects (t.pool.mem b) in
    rw (run, forward, for, ◌>>◌, self, served)
      (
        _,
        refl,
        record {
          running = refl;
          pending = refl;
          finished = refl;
          backends = refl;
          backend = rw self refl;
          err = rw self fine;
          others = λ x other. rw other refl;
        },
      )

-- requests that no list holds can be any
pub tally-others :
    (reqs reqs' : ℕ → Request) (b r : ℕ) (xs : List ℕ)
    → ((x : ℕ) → (r == x) ≡ false → reqs' x ≡ reqs x)
    → mult r xs ≡ 0
    → tally reqs' b xs ≡ tally reqs b xs
tally-others reqs reqs' b r [] same out = refl
tally-others reqs reqs' b r (x ∷ xs) same out =
    let apart : (r == x) ≡ false = ground arith in
    let head : serves reqs' b x ≡ serves reqs b x = rw (same x apart, serves) refl in
    rw (head, tally-others reqs reqs' b r xs same (omega arith)) refl
