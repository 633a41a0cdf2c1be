-- ===== src/Streamd/Streams.antt =====
-- cmd/streamd/handler.go: the three goroutines of a stream, after the reply.
use gbalancer.Prelude.{
  ℕ, ◌≡◌, refl, Bool, true, false, not, ◌⊎◌, inl, inr, Option, none, some, arith,
}
use gbalancer.Texts.{Text}
use gbalancer.Streamd.{Handled, unreached, unreplied, copies, agent_stream_handler}

-- where a streamCopy is: in io.Copy, behind it, or behind the Close of its dst
pub data Copy : Type 0 where
  copying copied closed : Copy

-- A stream and the connection to the service, the copies into each, and the loop that receives the
-- headers. Where nothing has been dialled, there is no connection.
pub record Stream : Type 0 where
  pub to_stream : Copy
  pub to_service : Copy
  pub stream_open : Bool
  pub service_open : Bool
  pub draining : Bool

abbrev start : Stream
start = record {
  to_stream = copying;
  to_service = copying;
  stream_open = true;
  service_open = true;
  draining = true;
}

-- AgentStreamHandler up to its end; the stream is open when it is called
unfoldable pub handle : Handled → Option Stream
handle unreached = none
handle (unreplied c) = none
handle (copies c) = some start

-- one step of one of the goroutines
pub data Step (s t : Stream) : Type 0 where
  stream_copied : s.to_stream ≡ copying → t ≡ record s { to_stream = copied } → Step s t
  stream_closed :
      s.to_stream ≡ copied → t ≡ record s { to_stream = closed; stream_open = false } → Step s t
  service_copied : s.to_service ≡ copying → t ≡ record s { to_service = copied } → Step s t
  service_closed :
      s.to_service ≡ copied → t ≡ record s { to_service = closed; service_open = false } → Step s t
  header : s.draining ≡ true → t ≡ s → Step s t
  no_header : s.draining ≡ true → t ≡ record s { draining = false } → Step s t

pub data Reaches (s : Stream) : Stream → Type 0 where
  here : Reaches s s
  later : {t u : Stream} → Reaches s t → Step t u → Reaches s u

-- whether the copy has closed its end
abbrev is_closed : Copy → Bool
is_closed closed = true
is_closed _ = false

record Inv (s : Stream) : Type 0 where
  stream : s.stream_open ≡ not (is_closed s.to_stream)
  service : s.service_open ≡ not (is_closed s.to_service)

Step-Inv : (s t : Stream) → Inv s → Step s t → Inv t
Step-Inv s t h (stream_copied at to) =
    rw to (record { stream = ground (arith, h.stream, at); service = h.service })
Step-Inv s t h (stream_closed at to) = rw to (record { stream = refl; service = h.service })
Step-Inv s t h (service_copied at to) =
    rw to (record { stream = h.stream; service = ground (arith, h.service, at) })
Step-Inv s t h (service_closed at to) = rw to (record { stream = h.stream; service = refl })
Step-Inv s t h (header on to) = rw to h
Step-Inv s t h (no_header on to) = rw to (record { stream = h.stream; service = h.service })

Reaches-Inv : (s t : Stream) → Inv s → Reaches s t → Inv t
Reaches-Inv s t h here = h
Reaches-Inv s t h (later {t = u} before step) = Step-Inv u t (Reaches-Inv s u h before) step

goes_on :
    (t : Stream) (p q : Copy)
    → t.to_stream ≡ p
    → t.to_service ≡ q
    → Inv t
    → (t.stream_open ≡ false) × (t.service_open ≡ false) ⊎ ((u : Stream) × Step t u)
goes_on t copying q at at' h = inr (_, stream_copied at refl)
goes_on t copied q at at' h = inr (_, stream_closed at refl)
goes_on t closed copying at at' h = inr (_, service_copied at' refl)
goes_on t closed copied at at' h = inr (_, service_closed at' refl)
goes_on t closed closed at at' h =
    inl (ground (arith, h.stream, at), ground (arith, h.service, at'))

-- If the service can be reached and the reply succeeds, then in every state that the goroutines reach an
-- end is open as long as the copy into it has not closed it, and either both ends are closed or one of
-- the copies can go on, given that io.Copy returns.
stream-ends :
    (dial : (network address : Text) → Option ℕ) (service : Text) (c : ℕ)
    → agent_stream_handler dial true service ≡ copies c
    → (s : Stream) × (handle (agent_stream_handler dial true service) ≡ some s)
      × ((t : Stream)
          → Reaches s t
          → (t.stream_open ≡ not (is_closed t.to_stream))
            × (t.service_open ≡ not (is_closed t.to_service))
            × ((t.stream_open ≡ false) × (t.service_open ≡ false) ⊎ ((u : Stream) × Step t u)))
unfolding handle
stream-ends dial service c reached = (
  start,
  rw (reached, handle) refl,
  λ t r.
      let h = Reaches-Inv start t (record { stream = refl; service = refl }) r in
      (h.stream, h.service, goes_on t t.to_stream t.to_service refl refl h),
)
