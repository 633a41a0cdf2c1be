-- ===== src/Scheduler/Serve.antt =====
-- engine/native/native.go: the requests that Serve makes for the clients, from the first state on.
use gbalancer.Prelude.{ℕ, ◌+◌, ◌≡◌, refl, Bool, none, arith, update}
use gbalancer.Prelude.Dict.{lookup}
use gbalancer.Backend.{Backend}
use gbalancer.State.{Request, Scheduler, Env, Exec, Ends}
use gbalancer.Scheduler.{new_scheduler, dispatch}
use gbalancer.Scheduler.Invariant.{tally-update, Inv}
use gbalancer.Scheduler.Keep.{dispatch-Inv}

-- a client's connection is accepted: `&Request{Conn: conn}`
unfoldable pub accept : Scheduler → ℕ → Scheduler
accept s conn = record s {
  requests = update s.requests s.next_request (record { conn = conn; backend = none; err = none });
  next_request = s.next_request + 1;
}

-- the request goes through the channel `job` to the scheduler's case for it
unfoldable pub on_job : Env → Scheduler → ℕ → Exec
unfolding accept
on_job env s conn = dispatch env (accept s conn) s.next_request

-- The state that NewScheduler makes satisfies the invariant, for objects that hold no requests yet.
pub new_scheduler-Inv :
    (lw : Bool) (tunnels : ℕ) (mem : ℕ → Backend) (requests : ℕ → Request)
    → ((b : ℕ) → ((mem b).ongoing ≡ 0) × ((mem b).index ≡ none))
    → Inv (new_scheduler lw tunnels mem requests)
unfolding new_scheduler lookup
new_scheduler-Inv lw tunnels mem requests h = record {
  places = record {
    ordered = record {
      fits = omega arith;
      indexed = λ i hi. absurd (omega arith);
      heap = λ c h0 hc. omega arith;
    };
    placed = λ b tracked i e. ground (arith, h b);
    listed = λ b (i, hi, e). absurd (omega arith);
    named = λ a b e. ground arith;
    born = λ a b e. ground arith;
    distinct = tt;
  };
  books = record {
    busy = λ b. (h b).0;
    bounded = λ b. ground (arith, h b);
    idle = λ b n. (h b).0;
    once = λ r. omega arith;
    unborn = λ r n. refl;
    assigned = λ r n. absurd (omega arith);
  };
}

accept-Inv : (s : Scheduler) (conn : ℕ) → Inv s → Inv (accept s conn)
unfolding accept
accept-Inv s conn i =
    let new = i.books.unborn s.next_request (omega arith) in
    let v : Request = record { conn = conn; backend = none; err = none } in
    record {
      places = i.places;
      books = record {
        busy = λ b.
            rw
              (
                tally-update s.requests b s.next_request v s.running (omega (arith, new)),
                tally-update s.requests b s.next_request v s.finished (omega (arith, new)),
              )
              (i.books.busy b);
        bounded = i.books.bounded;
        idle = i.books.idle;
        once = i.books.once;
        unborn = λ r n. i.books.unborn r (omega arith);
        assigned = λ r n. ground (arith, i.books.assigned r n, new);
      };
    }

-- In a state that satisfies the invariant a client's connection is handled without a panic, and the
-- invariant is kept.
pub on_job-Inv : (env : Env) (s : Scheduler) (conn : ℕ) → Inv s → Ends Inv (on_job env s conn)
unfolding on_job accept
on_job-Inv env s conn i =
    dispatch-Inv env (accept s conn) s.next_request (accept-Inv s conn i)
      (i.books.unborn s.next_request (omega arith)) (omega arith)
