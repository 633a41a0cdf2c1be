-- ===== src/Scheduler/Keep.antt =====
-- Dispatch keeps the invariant.
use gbalancer.Prelude.{
  ℕ, ◌+◌, ◌<◌, ◌≡◌, inl, inr, [], ◌∷◌, ◌++◌, List, arith, ℕ_discrete, some, Bool-cases, ◌==◌,
}
use gbalancer.Prelude.Dict.{Dict}
use gbalancer.Prelude.Lists.{mult}
use gbalancer.Backend.{Backend}
use gbalancer.Backend.Check.{SameEntry, check-SameEntry}
use gbalancer.Pool.{Pool}
use gbalancer.Heap.Contract.{InPool}
use gbalancer.State.{Scheduler, Env, Ends, Effect, max_forwarders_per_backend}
use gbalancer.Scheduler.{set_pool, start, dispatch}
use gbalancer.Scheduler.Places.{assign, assigned_in, assigned-IsPlaced}
use gbalancer.Scheduler.Readd.{Recounted}
use gbalancer.Scheduler.Invariant.{
  mult-append, tally-update, tally-start, IsTracked, Places, Books, Inv, held,
}
use gbalancer.Scheduler.Dispatch.{Dispatched, waits, sheds, starts, dispatch-Dispatched}

module _ (p : Pool) (names : Dict ℕ) (next b : ℕ) (h : Places p names next) where
  pub Recounted-Places : (n : ℕ) (q : Pool) → InPool p b → Recounted p b n q → Places q names next
  Recounted-Places n q inside c = record {
    ordered = c.ordered;
    placed = λ d tracked. elim (ℕ_discrete b d) [
      | yes e ↦ c.placed d (h.placed d (inr (ground (arith, h.listed b inside))))
      | no e ↦ c.placed d (h.placed d (ground (arith, c.body d)))
    ];
    listed = λ d i. ground (arith, c.body d, h.listed d ((c.entries d).0 i));
    named = λ a d e. ground (arith, c.body d, h.named a d e);
    born = h.born;
    distinct = h.distinct;
  }

  pub SameEntry-Places : (v : Backend) → SameEntry (p.mem b) v → Places (assign p b v) names next
  SameEntry-Places v e = record {
    ordered = assigned_in p b v e.index h.ordered e.ongoing e.weight;
    placed = λ d tracked. assigned-IsPlaced p b v e.index d (h.placed d (before d tracked));
    listed = λ d i. ground (arith, h.listed d i, e.address);
    named = λ a d l. ground (arith, h.named a d l, e.address);
    born = h.born;
    distinct = h.distinct;
  }
    where
      before : (d : ℕ) → IsTracked (assign p b v) names d → IsTracked p names d
      before d = ground (arith, e.address, e.ongoing)

module _ (env : Env) (s : Scheduler) (r : ℕ) (i : Inv s) (new : held s r ≡ 0)
    (old : r < s.next_request) where
  waits-Books : Books (record s { pending = s.pending ++ r ∷ [] })
  waits-Books = record {
    busy = i.books.busy;
    bounded = i.books.bounded;
    idle = i.books.idle;
    once = λ x. ground (arith, mult-append x s.pending (r ∷ []), i.books.once x);
    unborn = λ x h. ground (arith, mult-append x s.pending (r ∷ []), i.books.unborn x h);
    assigned = i.books.assigned;
  }

  module _ (b : ℕ) (q : Pool) where
    sheds-Books :
        Recounted s.pool b (s.pool.mem b).ongoing q
        → (f : List Effect) → Books (record s { pool = q; effects = f })
    sheds-Books c f = record {
      busy = λ d. ground (arith, c.body d, i.books.busy d);
      bounded = λ d. ground (arith, c.body d, i.books.bounded d);
      idle = λ d h. ground (arith, c.body d, i.books.idle d h);
      once = i.books.once;
      unborn = i.books.unborn;
      assigned = i.books.assigned;
    }

    starts-Books :
        InPool s.pool b
        → (s.pool.mem b).ongoing < max_forwarders_per_backend
        → Recounted s.pool b ((s.pool.mem b).ongoing + 1) q
        → Books (start env (set_pool s q) b r)
    unfolding start
    starts-Books inside room c =
        let e = check-SameEntry env.peek_next_stream_id env.now s.check_time (q.mem b) in
        let out : mult r s.running ≡ 0 = omega arith in
        let out' : mult r s.finished ≡ 0 = omega arith in
        record {
          busy = λ d.
              rw
                (
                  tally-start s.requests b d r s.running out,
                  tally-update s.requests d r (record (s.requests r) { backend = some b })
                      s.finished out',
                )
                (ground (arith, e.ongoing, c.body d, c.body b, i.books.busy d));
          bounded = λ d. ground (arith, e.ongoing, c.body d, c.body b, i.books.bounded d);
          idle = λ d h. ground (
            arith,
            c.body d,
            i.books.idle d h,
            i.places.born (s.pool.mem b).address b (i.places.listed b inside),
          );
          once = λ x. ground (arith, i.books.once x);
          unborn = λ x h. ground (arith, i.books.unborn x h);
          assigned = λ x h. elim (Bool-cases (r == x)) [
            | inl self ↦ (b, rw self)
            | inr other ↦ let (d, e') = i.books.assigned x (ground arith) in (d, rw other e')
          ];
        }

  -- each outcome of dispatch keeps the invariant
  pub Dispatched-Inv : (t : Scheduler) → Dispatched env s r t → Inv t
  Dispatched-Inv t (waits _ e) = rw e (record { places = i.places; books = waits-Books })
  Dispatched-Inv t (sheds b q best full c e) = rw e (record {
    places =
        Recounted-Places s.pool s.backends s.next_backend b i.places (s.pool.mem b).ongoing q
          best.inside c;
    books = sheds-Books b q c _;
  })
  Dispatched-Inv t (starts b q best room c e) =
      let p =
        Recounted-Places s.pool s.backends s.next_backend b i.places ((s.pool.mem b).ongoing + 1) q
          best.inside c in
      let same = check-SameEntry env.peek_next_stream_id env.now s.check_time (q.mem b) in
      rw e (record {
        places = unfold start in SameEntry-Places q s.backends s.next_backend b p _ same;
        books = starts-Books b q best.inside room c;
      })

  -- Dispatch of a request that is not under way keeps the invariant, and returns.
  pub dispatch-Inv : Ends Inv (dispatch env s r)
  dispatch-Inv =
      let (t, run, d) = dispatch-Dispatched env s r i.places.ordered in (t, run, Dispatched-Inv t d)
