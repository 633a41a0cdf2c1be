-- ===== src/Scheduler/Copies/Laws.antt =====
-- Whatever order the goroutines run in, run ends with both connections closed.
use gbalancer.Prelude.{
  ℕ, ◌+◌, ◌∙◌, ◌≤◌, ◌≡◌, refl, Bool, true, false, not, ◌||◌, List, [], ◌∷◌, ◌++◌, Option, none,
  some, arith, if◌then◌else◌,
}
use gbalancer.Prelude.Lists.{length, length-append}
use gbalancer.Prelude.Dict.{has}
use gbalancer.Backend.{GoError, connected}
use gbalancer.Scheduler.Running.{outcome}
use gbalancer.Scheduler.Copies.{
  Copy, copying, copied, closed, sent, Splice, start, receive, Step, client_copied, client_closed,
  client_sent, backend_copied, backend_closed, backend_sent, received, finished, Reaches, here,
  later,
}

-- the steps that a copy has made
abbrev progress : Copy → ℕ
progress copying = 0
progress (copied e) = 1
progress (closed e) = 2
progress (sent e) = 3

-- how many errors a copy has sent, of how many results
abbrev pub sends : Copy → ℕ
sends (sent e) = 1
sends _ = 0

abbrev pub has_failed : Copy → Bool
has_failed (sent (some e)) = true
has_failed _ = false

-- dst is open until it is closed
abbrev unclosed : Copy → Bool
unclosed copying = true
unclosed (copied e) = true
unclosed _ = false

abbrev any_failed : List (Option GoError) → Bool
any_failed [] = false
any_failed (e ∷ rest) = has e || any_failed rest

any_failed-append :
    (xs ys : List (Option GoError)) → any_failed (xs ++ ys) ≡ (any_failed xs || any_failed ys)
any_failed-append [] ys = refl
any_failed-append (x ∷ xs) ys = ground (arith, any_failed-append xs ys)

pub record Inv (before : Option GoError) (s : Splice) : Type 0 where
  pub count : length s.got + length s.c ≡ sends s.to_client + sends s.to_backend
  pub errors :
      (any_failed s.got || any_failed s.c) ≡ (has_failed s.to_client || has_failed s.to_backend)
  pub err : s.err ≡ (if any_failed s.got then none else before)
  pub client : s.client_open ≡ unclosed s.to_client
  pub backend : s.backend_open ≡ unclosed s.to_backend
  pub ended : s.is_sent ≡ true → length s.got ≡ 2

pub Step-Inv : (before : Option GoError) (s t : Splice) → Inv before s → Step s t → Inv before t
unfolding receive
Step-Inv before s t h (client_copied e at to) = rw to (record {
  count = ground (arith, h.count, at);
  errors = ground (arith, h.errors, at);
  err = h.err;
  client = ground (arith, h.client, at);
  backend = h.backend;
  ended = h.ended;
})
Step-Inv before s t h (client_closed e at to) = rw to (record {
  count = ground (arith, h.count, at);
  errors = ground (arith, h.errors, at);
  err = h.err;
  client = refl;
  backend = h.backend;
  ended = h.ended;
})
Step-Inv before s t h (client_sent e at room to) = rw to (record {
  count = ground (arith, h.count, at, length-append s.c (e ∷ []));
  errors = ground (arith, h.errors, at, any_failed-append s.c (e ∷ []));
  err = h.err;
  client = ground (arith, h.client, at);
  backend = h.backend;
  ended = h.ended;
})
Step-Inv before s t h (backend_copied e at to) = rw to (record {
  count = ground (arith, h.count, at);
  errors = ground (arith, h.errors, at);
  err = h.err;
  client = h.client;
  backend = ground (arith, h.backend, at);
  ended = h.ended;
})
Step-Inv before s t h (backend_closed e at to) = rw to (record {
  count = ground (arith, h.count, at);
  errors = ground (arith, h.errors, at);
  err = h.err;
  client = h.client;
  backend = refl;
  ended = h.ended;
})
Step-Inv before s t h (backend_sent e at room to) = rw to (record {
  count = ground (arith, h.count, at, length-append s.c (e ∷ []));
  errors = ground (arith, h.errors, at, any_failed-append s.c (e ∷ []));
  err = h.err;
  client = h.client;
  backend = ground (arith, h.backend, at);
  ended = h.ended;
})
Step-Inv before s t h (received e rest at more to) = rw to (record {
  count = ground (arith, h.count, at, length-append s.got (e ∷ []));
  errors = ground (arith, h.errors, at, any_failed-append s.got (e ∷ []));
  err = ground (arith, h.err, any_failed-append s.got (e ∷ []));
  client = h.client;
  backend = h.backend;
  ended = λ done. ground (arith, h.ended done);
})
Step-Inv before s t h (finished open_yet all to) = rw to (record {
  count = h.count;
  errors = h.errors;
  err = h.err;
  client = h.client;
  backend = h.backend;
  ended = λ done. all;
})

pub Reaches-Inv : (before : Option GoError) (t : Splice) → Reaches (start before) t → Inv before t
Reaches-Inv before t here = record {
  count = refl;
  errors = refl;
  err = refl;
  client = refl;
  backend = refl;
  ended = λ e. cc;
}
Reaches-Inv before t (later r step) = Step-Inv before _ t (Reaches-Inv before _ r) step

all_sent : (p q : Copy) → sends p + sends q ≡ 2 → (unclosed p ≡ false) × (unclosed q ≡ false)
all_sent copying q h = ground arith
all_sent (copied e) q h = ground arith
all_sent (closed e) copying h = ground arith
all_sent (closed e) (copied f) h = ground arith
all_sent (closed e) (closed f) h = (refl, refl)
all_sent (closed e) (sent f) h = (refl, refl)
all_sent (sent e) copying h = ground arith
all_sent (sent e) (copied f) h = ground arith
all_sent (sent e) (closed f) h = (refl, refl)
all_sent (sent e) (sent f) h = (refl, refl)

pub sends_le : (p : Copy) → sends p ≤ 1
sends_le copying = omega arith
sends_le (copied e) = omega arith
sends_le (closed e) = omega arith
sends_le (sent e) = omega arith

-- When run sends its request on `done`, in whatever order the goroutines ran, both copies are at
-- their end, both connections are closed, no result is left in the channel, and the error of the
-- request is the one that the model of run gives it: none if a copy failed, else the one before.
pub finished-closed :
    (before : Option GoError) (t : Splice) (connection : ℕ)
    → Reaches (start before) t
    → t.is_sent ≡ true
    → (t.client_open ≡ false)
      × (t.backend_open ≡ false)
      × (t.c ≡ [])
      × (t.err
          ≡ outcome
              (connected connection)
              (not (has_failed t.to_client || has_failed t.to_backend))
              before)
unfolding outcome
finished-closed before t connection r at_end =
    let h = Reaches-Inv before t r in
    let two = h.ended at_end in
    let most = sends_le t.to_client in
    let most' = sends_le t.to_backend in
    let both : sends t.to_client + sends t.to_backend ≡ 2 =
      omega (arith, h.count, two, most, most') in
    let (shut, shut') = all_sent t.to_client t.to_backend both in
    let empty : t.c ≡ [] = ground (arith, h.count, two, both) in
    (h.client ∙ shut, h.backend ∙ shut', empty, ground (arith, h.err, h.errors, empty))
