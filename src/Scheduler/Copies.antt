-- ===== src/Scheduler/Copies.antt =====
-- engine/native/scheduler.go: what run does once it has a connection to the backend. Two goroutines
-- sockCopy copy one way each, and run waits for both.
pub mod Laws
pub mod Ends
use gbalancer.Prelude.{ℕ, ◌≡◌, ◌<◌, Bool, true, false, List, [], ◌∷◌, ◌++◌, Option, none, some}
use gbalancer.Prelude.Lists.{length}
use gbalancer.Backend.{GoError}

-- Where a sockCopy is: in io.Copy, behind it with what it returned, behind the Close of its dst, or
-- at its end, behind the send on `c`.
pub data Copy : Type 0 where
  copying : Copy
  copied closed sent : Option GoError → Copy

-- The variables of run and of its two goroutines. `to_client` copies from the backend to the client,
-- `to_backend` the other way; `c` is the channel, oldest first, and `got` what was received from it.
-- `err` is `req.err`, and `is_sent` says that the request was sent on `done`.
pub record Splice : Type 0 where
  pub to_client : Copy
  pub to_backend : Copy
  pub client_open : Bool
  pub backend_open : Bool
  pub c : List (Option GoError)
  pub got : List (Option GoError)
  pub err : Option GoError
  pub is_sent : Bool

-- both goroutines have been started
abbrev pub start : Option GoError → Splice
start before = record {
  to_client = copying;
  to_backend = copying;
  client_open = true;
  backend_open = true;
  c = [];
  got = [];
  err = before;
  is_sent = false;
}

-- `if r := <-c; r.err != nil { req.err = err }`, where `err` is nil
unfoldable pub receive : Option GoError → Option GoError → Option GoError
receive none before = before
receive (some e) before = none

-- One step of one of the three goroutines. A send on `c` finds room in its buffer of two.
pub data Step (s t : Splice) : Type 0 where
  client_copied :
      (e : Option GoError)
      → s.to_client ≡ copying
      → t ≡ record s { to_client = copied e }
      → Step s t
  client_closed :
      (e : Option GoError)
      → s.to_client ≡ copied e
      → t ≡ record s { to_client = closed e; client_open = false }
      → Step s t
  client_sent :
      (e : Option GoError)
      → s.to_client ≡ closed e
      → length s.c < 2
      → t ≡ record s { to_client = sent e; c = s.c ++ e ∷ [] }
      → Step s t
  backend_copied :
      (e : Option GoError)
      → s.to_backend ≡ copying
      → t ≡ record s { to_backend = copied e }
      → Step s t
  backend_closed :
      (e : Option GoError)
      → s.to_backend ≡ copied e
      → t ≡ record s { to_backend = closed e; backend_open = false }
      → Step s t
  backend_sent :
      (e : Option GoError)
      → s.to_backend ≡ closed e
      → length s.c < 2
      → t ≡ record s { to_backend = sent e; c = s.c ++ e ∷ [] }
      → Step s t
  received :
      (e : Option GoError) (rest : List (Option GoError))
      → s.c ≡ e ∷ rest
      → length s.got < 2
      → t ≡ record s { c = rest; got = s.got ++ e ∷ []; err = receive e s.err }
      → Step s t
  finished : s.is_sent ≡ false → length s.got ≡ 2 → t ≡ record s { is_sent = true } → Step s t

pub data Reaches (s : Splice) : Splice → Type 0 where
  here : Reaches s s
  later : {t u : Splice} → Reaches s t → Step t u → Reaches s u
