-- ===== src/Scheduler/Moves.antt =====
-- The methods that move backends on and off the heap leave the requests alone.
use Prim.Native.String.{String}
use gbalancer.Prelude.{ℕ, ◌+◌, ◌≤◌, ◌<◌, ◌≡◌, refl, ap, ◌∙◌, inr, none, some, arith, subst}
use gbalancer.Prelude.Dict.{Dict, lookup, insert, delete}
use gbalancer.Pool.{Pool}
use gbalancer.Heap.Add.{add-Added}
use gbalancer.State.{Scheduler, Ends}
use gbalancer.Scheduler.{put_on, add_backend, remove_backend}
use gbalancer.Scheduler.Places.{unplaced_out}
use gbalancer.Scheduler.OffHeap.{take_off-Without}
use gbalancer.Scheduler.Registry.{Added-Places, insert-Added-Places, delete-Without-Places}
use gbalancer.Scheduler.Invariant.{Places, Books}

-- the requests, and the counts of the backends, are left alone
pub record Apart (s t : Scheduler) : Type 0 where
  pub requests : t.requests ≡ s.requests
  pub next_request : t.next_request ≡ s.next_request
  pub pending : t.pending ≡ s.pending
  pub running : t.running ≡ s.running
  pub finished : t.finished ≡ s.finished
  pub cap : t.pool.cap ≡ s.pool.cap
  pub tunnels : t.tunnels ≡ s.tunnels
  pub later : s.next_backend ≤ t.next_backend
  pub counts : (b : ℕ) → (t.pool.mem b).ongoing ≡ (s.pool.mem b).ongoing

-- besides, the places are in order and the pool has grown by at most `k`
pub record Moved (k : ℕ) (s t : Scheduler) : Type 0 where
  pub apart : Apart s t
  pub places : Places t.pool t.backends t.next_backend
  pub grows : t.pool.len ≤ s.pool.len + k

pub Apart-Books : (s t : Scheduler) → Apart s t → Books s → Books t
Apart-Books s t a h = record {
  busy = λ b. ground (arith, a.counts b, h.busy b, a.requests, a.running, a.finished);
  bounded = λ b. ground (arith, a.counts b, h.bounded b);
  idle = λ b n. ground (arith, a.counts b, h.idle b, a.later);
  once = λ r. ground (arith, h.once r, a.running, a.finished, a.pending);
  unborn = λ r n. ground (arith, h.unborn r, a.next_request, a.running, a.finished, a.pending);
  assigned = λ r n.
      let (b, e) = h.assigned r (ground (arith, a.running, a.finished)) in
      (b, ground (arith, a.requests));
}

pub Moved-trans : (j k : ℕ) (s t u : Scheduler) → Moved j s t → Moved k t u → Moved (j + k) s u
Moved-trans j k s t u m n = record {
  apart = record {
    requests = n.apart.requests ∙ m.apart.requests;
    next_request = n.apart.next_request ∙ m.apart.next_request;
    pending = n.apart.pending ∙ m.apart.pending;
    running = n.apart.running ∙ m.apart.running;
    finished = n.apart.finished ∙ m.apart.finished;
    cap = n.apart.cap ∙ m.apart.cap;
    tunnels = n.apart.tunnels ∙ m.apart.tunnels;
    later = omega (arith, m.apart.later, n.apart.later);
    counts = λ b. n.apart.counts b ∙ m.apart.counts b;
  };
  places = n.places;
  grows = omega (arith, m.grows, n.grows);
}

pub Moved-refl : (s : Scheduler) → Places s.pool s.backends s.next_backend → Moved 0 s s
Moved-refl s h = record {
  apart = record {
    requests = refl;
    next_request = refl;
    pending = refl;
    running = refl;
    finished = refl;
    cap = refl;
    tunnels = refl;
    later = omega arith;
    counts = λ b. refl;
  };
  places = h;
  grows = omega arith;
}

module _ (s : Scheduler) (h : Places s.pool s.backends s.next_backend) where
  -- the state with another pool and other names
  moved :
      (k b : ℕ) (q : Pool) (names : Dict ℕ)
      → q.cap ≡ s.pool.cap
      → q.len ≤ s.pool.len + k
      → ((d : ℕ) → (q.mem d).ongoing ≡ (s.pool.mem d).ongoing)
      → Places q names s.next_backend
      → Moved k s (record s { pool = q; backends = names })
  moved k b q names same_cap grows counts places = record {
    apart = record {
      requests = refl;
      next_request = refl;
      pending = refl;
      running = refl;
      finished = refl;
      cap = same_cap;
      tunnels = refl;
      later = omega arith;
      counts = counts;
    };
    places = places;
    grows = grows;
  }

  pub put_on-Moved :
      (b : ℕ)
      → lookup (s.pool.mem b).address s.backends ≡ some b
      → (s.pool.mem b).index ≡ none
      → s.pool.len < s.pool.cap
      → Ends (λ t. Moved 1 s t × (t.backends ≡ s.backends)) (put_on s b)
  put_on-Moved b listed off room =
      let out = unplaced_out s.pool b h.ordered off in
      let (q, run, a) = add-Added s.pool b h.ordered room out in
      rw run (
        _,
        refl,
        (
          moved 1 b q s.backends a.keeps.same_cap (omega (arith, a.longer))
              (λ d. ground (arith, a.keeps.body d))
              (Added-Places s.pool s.backends s.next_backend b h q listed a),
          refl,
        ),
      )

  pub add_backend-Moved :
      (b : ℕ)
      → b < s.next_backend
      → lookup (s.pool.mem b).address s.backends ≡ none
      → s.pool.len < s.pool.cap
      → Ends
          (λ t.
            Moved 1 s t
            × (t.backends ≡ insert (s.pool.mem b).address b s.backends)
            × (0 < t.pool.len))
          (add_backend s b)
  unfolding add_backend
  add_backend-Moved b old free room =
      let (q, run, a) = add-Added s.pool b h.ordered room (λ i. ground (arith, h.listed b i)) in
      rw run (
        _,
        refl,
        (
          moved 1 b q (insert (s.pool.mem b).address b s.backends) a.keeps.same_cap
              (omega (arith, a.longer)) (λ d. ground (arith, a.keeps.body d))
              (insert-Added-Places s.pool s.backends s.next_backend b h q old free a),
          refl,
          omega (arith, a.longer),
        ),
      )

  pub remove_backend-Moved :
      (addr : String) (b : ℕ)
      → lookup addr s.backends ≡ some b
      → Ends (λ t. Moved 0 s t × (t.backends ≡ delete addr s.backends)) (remove_backend s addr)
  unfolding remove_backend
  remove_backend-Moved addr b found =
      let name = h.named addr b found in
      let listed : lookup (s.pool.mem b).address s.backends ≡ some b = rw name found in
      let (t, run, (q, at, w)) = take_off-Without s b h (inr listed) in
      let name' : (q.mem b).address ≡ addr = ground (arith, w.body b) in
      let names : delete (q.mem b).address s.backends ≡ delete addr s.backends =
        ap (λ x. delete x s.backends) name' in
      let places : Places q (delete addr s.backends) s.next_backend =
        subst (λ x. Places q (delete x s.backends) s.next_backend) name
          (delete-Without-Places s.pool s.backends s.next_backend b h q listed w) in
      rw (found, remove_backend, run, at)
        (
          _,
          refl,
          (
            moved 0 b q (delete (q.mem b).address s.backends) w.same_cap
                (omega (arith, w.no_longer)) (λ d. ground (arith, w.body d)) (rw names places),
            names,
          ),
        )
