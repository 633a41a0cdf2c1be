-- ===== src/Scheduler/Finish.antt =====
-- The handler of the channel `done` keeps the invariant.
use gbalancer.Prelude.{
  ℕ, ◌+◌, ◌-◌, ◌<◌, ◌≡◌, refl, ap, ◌∙◌, inl, inr, List, ◌∷◌, some, arith, ◌==◌, ◌%◌, ◌^◌,
  if◌then◌else◌, Option-cases, Bool-cases,
}
use gbalancer.Prelude.Lists.{mult}
use gbalancer.Backend.{GoError}
use gbalancer.Pool.{Pool}
use gbalancer.Heap.Contract.{Taken}
use gbalancer.State.{Scheduler, Env, done, ◌>>◌, Ends}
use gbalancer.Scheduler.{set_pool, leave, take_off, put_on, is_dial, dispatch, finish}
use gbalancer.Scheduler.Readd.{readd_counted}
use gbalancer.Scheduler.OffHeap.{
  Without, take_off-none, take_off-some, take_off-Without, Without-Places,
}
use gbalancer.Scheduler.Invariant.{tally, serves, Books, Inv}
use gbalancer.Scheduler.Keep.{Recounted-Places, dispatch-Inv}

-- a request `r` for the backend `b` has come from the channel, whose other requests are `rest`
module _ (env : Env) (s : Scheduler) (r b : ℕ) (rest : List ℕ) (i : Inv s)
    (head : s.finished ≡ r ∷ rest) (for : (s.requests r).backend ≡ some b) where
  abbrev pub taken : Scheduler
  taken = record s { finished = rest }

  tally_rest :
      (d : ℕ) → tally s.requests d s.finished ≡ (if b == d then 1 else 0) + tally s.requests d rest
  tally_rest d = ap (tally s.requests d) head ∙ rw (for, serves)

  mult_rest : (x : ℕ) → mult x s.finished ≡ (if r == x then 1 else 0) + mult x rest
  mult_rest x = ap (mult x) head

  served : 0 < (s.pool.mem b).ongoing
  served = ground (arith, i.books.busy b, tally_rest b)

  -- the books once the count of `b` is lowered
  lowered-Books :
      (p : Pool)
      → ((d : ℕ)
          → (p.mem d).ongoing
            ≡ (if b == d then (s.pool.mem b).ongoing - 1 else (s.pool.mem d).ongoing))
      → Books (set_pool taken p)
  lowered-Books p h = record {
    busy = λ d. ground (arith, h d, i.books.busy d, i.books.busy b, tally_rest d, tally_rest b);
    bounded = λ d. ground (arith, h d, i.books.bounded d, i.books.bounded b);
    idle = λ d n. ground (arith, h d, i.books.idle d n);
    once = λ x. ground (arith, mult_rest x, i.books.once x);
    unborn = λ x n. ground (arith, mult_rest x, i.books.unborn x n);
    assigned = λ x n. i.books.assigned x (ground (arith, mult_rest x));
  }

  lowered :
      (n : ℕ) → n ≡ (s.pool.mem b).ongoing → (n + 2 ^ 64 - 1) % 2 ^ 64 ≡ (s.pool.mem b).ongoing - 1
  lowered n e = ground (arith, served, i.books.bounded b)

  -- off the heap and with its count lowered
  pub off-Inv : (q : Pool) → Without s.pool b q → Inv (leave (set_pool taken q) b)
  off-Inv q w = record {
    places =
        Without-Places s.pool q s.backends s.next_backend b _ i.places w w.unplaced
          (ground (arith, w.body b));
    books = lowered-Books _ (λ d. ground (arith, w.body d, w.body b, lowered (q.mem b).ongoing));
  }

  known : r < s.next_request
  known = ground (arith, i.books.unborn r, mult_rest r)

  failed-Inv :
      (e : GoError)
      → Ends Inv (
          take_off taken b >> λ t.
          if is_dial e then dispatch env (leave t b) r else done (leave t b))
  failed-Inv e =
      let (t, run, (q, at, w)) = take_off-Without taken b i.places (inl served) in
      rw (run, at)
        (elim (Bool-cases (is_dial e)) [
          | inl again ↦ rw again (
              dispatch-Inv env (leave (set_pool taken q) b) r (off-Inv q w)
                (ground (arith, i.books.once r, mult_rest r)) known)
          | inr given_up ↦ rw given_up (_, refl, off-Inv q w)
        ])

  -- put back with its count lowered
  back-Inv : (q : Pool) → Taken s.pool b q → Ends Inv (put_on (leave (set_pool taken q) b) b)
  back-Inv q t =
      let (p, run, c) =
        readd_counted s.pool q b i.places.ordered t (((q.mem b).ongoing + 2 ^ 64 - 1) % 2 ^ 64) in
      let n = lowered (q.mem b).ongoing (ground (arith, t.keeps.body b)) in
      rw run (
        _,
        refl,
        record {
          places = Recounted-Places s.pool s.backends s.next_backend b i.places _ p t.was_in c;
          books = lowered-Books p (λ d. ground (arith, c.body d, n));
        },
      )

  finish_for-Inv : Ends Inv (finish env taken r)
  unfolding finish
  finish_for-Inv = elim (Option-cases (s.requests r).err) [
    | inr (e, failed) ↦ rw (for, finish, failed) (failed-Inv e)
    | inl good ↦ elim (Option-cases (s.pool.mem b).index) [
      | inl out ↦
          rw (for, finish, good, out)
            (_, refl, off-Inv s.pool (take_off-none taken b i.places (inl served) out).1)
      | inr (k, at) ↦
          let (t, run, (q, e, tk)) = take_off-some taken b i.places (inl served) k at in
          rw (for, finish, good, at, run, e) (back-Inv q tk)
    ]
  ]

-- In a state that satisfies the invariant the handler of the channel `done` returns for the request
-- that is next in the channel, and keeps the invariant, whether or not the request failed and is dispatched again.
pub finish-Inv :
    (env : Env) (s : Scheduler) (r : ℕ) (rest : List ℕ)
    → Inv s
    → s.finished ≡ r ∷ rest
    → Ends Inv (finish env (record s { finished = rest }) r)
finish-Inv env s r rest i head =
    let (b, for) = i.books.assigned r (ground (arith, ap (mult r) head)) in
    finish_for-Inv env s r b rest i head for
