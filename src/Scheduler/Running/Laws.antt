-- ===== src/Scheduler/Running/Laws.antt =====
-- The goroutine run keeps the invariant, in two halves or in one.
use Prim.Native.String.{String}
use gbalancer.Prelude.{
  ℕ, zero, suc, ◌+◌, ◌<◌, ◌≡◌, refl, Bool, true, false, List, [], ◌∷◌, ◌++◌, Option, none, some,
  arith, ◌==◌, ==_iff, update, if◌then◌else◌, Option-cases, Bool-cases, inl, inr, ap, ℕ_discrete,
  ◌%◌, ◌^◌,
}
use gbalancer.Prelude.Lists.{mult, get_elem?}
use gbalancer.Backend.{
  Backend, GoError, Dialed, connected, refused, forward_loop, forwarder_new_connection,
}
use gbalancer.Backend.Check.{SameEntry}
use gbalancer.State.{Request, Scheduler, Ends, ◌>>◌}
use gbalancer.Scheduler.{set_backend}
use gbalancer.Scheduler.Invariant.{serves, tally, mult-append, tally-append, Inv}
use gbalancer.Scheduler.Ready.{replace-Inv}
use gbalancer.Scheduler.Running.{drop_one, given_up, outcome, forward, complete, settle, run}

forward_loop-SameEntry :
    (create : ℕ → Option ℕ) (k i cnt : ℕ) (b v : Backend) (failed : List (ℕ × ℕ))
    → SameEntry b v
    → SameEntry b (forward_loop create k i cnt v failed).backend
unfolding forward_loop
forward_loop-SameEntry create zero i cnt b v failed e = e
forward_loop-SameEntry create (suc k) i cnt b v failed e =
    elim (Option-cases (get_elem? v.tunnel ((cnt + i) % 2 ^ 64 % v.tunnels))) [
      | inl out ↦ rw (out, forward_loop) (forward_loop-SameEntry create k (i + 1) cnt b v failed e)
      | inr (t, there) ↦ elim (Option-cases t.conn) [
        | inl closed ↦
            rw (there, forward_loop, closed)
              (forward_loop-SameEntry create k (i + 1) cnt b v failed e)
        | inr (c, live) ↦ elim (Option-cases (create c)) [
          | inr (stream, made) ↦ rw (there, forward_loop, live, made) e
          | inl broken ↦
              rw (there, forward_loop, live, broken)
                (forward_loop-SameEntry create k (i + 1) cnt b _ _ (record {
                  index = e.index;
                  ongoing = e.ongoing;
                  weight = e.weight;
                  address = e.address;
                }))
        ]
      ]
    ]

forward-SameEntry :
    (create : ℕ → Option ℕ) (dial : String → Dialed) (b : Backend)
    → SameEntry b (forwarder_new_connection create dial b).1
unfolding forwarder_new_connection
forward-SameEntry create dial b =
    let self : SameEntry b b = record {
      index = refl;
      ongoing = refl;
      weight = refl;
      address = refl;
    } in
    elim (Bool-cases (b.tunnels == 0)) [
      | inl plain ↦ rw plain self
      | inr tunnelled ↦ rw tunnelled (forward_loop-SameEntry create b.tunnels 0 b.count b b [] self)
    ]

pub mult-drop_one :
    (r x : ℕ) (xs : List ℕ)
    → 0 < mult r xs
    → (if r == x then 1 else 0) + mult x (drop_one r xs) ≡ mult x xs
unfolding drop_one
mult-drop_one r x [] h = omega arith
mult-drop_one r x (y ∷ ys) h = ground (arith, mult-drop_one r x ys)

tally-drop_one :
    (reqs : ℕ → Request) (b r : ℕ) (xs : List ℕ)
    → 0 < mult r xs
    → (if serves reqs b r then 1 else 0) + tally reqs b (drop_one r xs) ≡ tally reqs b xs
unfolding drop_one
tally-drop_one reqs b r [] h = omega arith
tally-drop_one reqs b r (y ∷ ys) h = elim (ℕ_discrete r y) [
  | yes e ↦
      let self : (r == y) ≡ true = ground arith in
      rw self (ap (λ z. (if serves reqs b z then 1 else 0) + tally reqs b ys) e)
  | no ne ↦
      let other : (r == y) ≡ false = ground arith in
      rw other (omega (arith, tally-drop_one reqs b r ys (ground arith)))
]

-- an error that is recorded moves no request to another backend
tally-err :
    (reqs : ℕ → Request) (b r : ℕ) (e : Option GoError) (xs : List ℕ)
    → tally (update reqs r (record (reqs r) { err = e })) b xs ≡ tally reqs b xs
tally-err reqs b r e [] = refl
tally-err reqs b r e (x ∷ xs) =
    let head : serves (update reqs r (record (reqs r) { err = e })) b x ≡ serves reqs b x =
      elim (ℕ_discrete r x) [
        | yes same ↦
            let self : (r == x) ≡ true = ground arith in rw (self, serves) (ap (serves reqs b) same)
        | no ne ↦ let other : (r == x) ≡ false = ground arith in rw (other, serves) refl
      ] in
    rw (head, tally-err reqs b r e xs) refl

-- a request goes from the running ones to the channel
pub complete-Inv :
    (dialed : Dialed) (copied : Bool) (s : Scheduler) (r : ℕ)
    → Inv s
    → 0 < mult r s.running
    → Inv (complete dialed copied s r)
unfolding complete
complete-Inv dialed copied s r i started =
    let e = outcome dialed copied (s.requests r).err in
    record {
      places = i.places;
      books = record {
        busy = λ b.
            rw
              (
                tally-err s.requests b r e (drop_one r s.running),
                tally-err s.requests b r e (s.finished ++ r ∷ []),
                tally-append s.requests b s.finished (r ∷ []),
              )
              (omega (arith, i.books.busy b, tally-drop_one s.requests b r s.running started));
        bounded = i.books.bounded;
        idle = i.books.idle;
        once = λ x. ground (
          arith,
          i.books.once x,
          mult-append x s.finished (r ∷ []),
          mult-drop_one r x s.running started,
        );
        unborn = λ x n. ground (
          arith,
          i.books.unborn x n,
          mult-append x s.finished (r ∷ []),
          mult-drop_one r x s.running started,
        );
        assigned = λ x n.
            let before : 0 < mult x s.running + mult x s.finished =
              ground
                (arith, mult-append x s.finished (r ∷ []), mult-drop_one r x s.running started) in
            let (b, for) = i.books.assigned x before in (b, ground arith);
      };
    }

-- what is noted of a connection concerns no count
noted-Inv : (s : Scheduler) (u : ℕ → Option Dialed) → Inv s → Inv (record s { upstream = u })
noted-Inv s u i = record {
  places = i.places;
  books = record {
    busy = i.books.busy;
    bounded = i.books.bounded;
    idle = i.books.idle;
    once = i.books.once;
    unborn = i.books.unborn;
    assigned = i.books.assigned;
  };
}

-- the first half returns, and leaves the running requests alone
pub forward-Inv :
    (create : ℕ → Option ℕ) (dial : String → Dialed) (s : Scheduler) (r : ℕ)
    → Inv s
    → 0 < mult r s.running
    → Ends
        (λ t. Inv t × (t.running ≡ s.running) × ((dialed : Dialed) × (t.upstream r ≡ some dialed)))
        (forward create dial s r)
unfolding forward
forward-Inv create dial s r i started =
    let (b, for) = i.books.assigned r (omega arith) in
    let (dialed, v, failed) = forwarder_new_connection create dial (s.pool.mem b) in
    let f = s.effects ++ given_up b failed in
    let j = replace-Inv s b v f i (forward-SameEntry create dial (s.pool.mem b)) in
    let self : (r == r) ≡ true = (==_iff r r).1 refl in
    rw (forward, for)
      (
        _,
        refl,
        (
          noted-Inv (set_backend (record s { effects = f }) b v) (update s.upstream r (some dialed))
              j,
          refl,
          (dialed, rw self refl),
        ),
      )

settle-Inv :
    (dialed : Dialed) (copied : Option Bool) (s : Scheduler) (r : ℕ)
    → Inv s
    → 0 < mult r s.running
    → Inv (settle dialed copied s r)
unfolding settle
settle-Inv (refused e) copied s r i started = complete-Inv (refused e) false s r i started
settle-Inv (connected c) none s r i started = i
settle-Inv (connected c) (some good) s r i started = complete-Inv (connected c) good s r i started

-- In a state that satisfies the invariant the goroutine that was started for a request does not panic,
-- and keeps the invariant, whether it ends or waits for a copy.
pub run-Inv :
    (create : ℕ → Option ℕ) (dial : String → Dialed) (copied : Option Bool) (s : Scheduler) (r : ℕ)
    → Inv s
    → 0 < mult r s.running
    → Ends Inv (run create dial copied s r)
unfolding run
run-Inv create dial copied s r i started =
    let (t, went, (j, same, (dialed, noted))) = forward-Inv create dial s r i started in
    rw (run, went, ◌>>◌, noted) (_, refl, settle-Inv dialed copied t r j (rw same started))
