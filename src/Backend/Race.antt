-- ===== src/Backend/Race.antt =====
-- engine/native/backend.go: one tunnel of a backend under several goroutines. Each of them is in
-- ForwarderNewConnection, in its round for this tunnel, and the scheduler calls SwitchSpdyConn.
pub mod Laws
use gbalancer.Prelude.{
  ℕ, ◌+◌, ◌≡◌, ◌≢◌, ◌<◌, List, [], ◌∷◌, Option, none, some, ◌==◌, if◌then◌else◌,
}
use gbalancer.Prelude.Lists.{mult}

-- where SwitchSpdyConn is: not called, behind the read of the old connection, or behind its Close
pub data Switch : Type 0 where
  idle : Switch
  saw : Option ℕ → Switch
  shut : Switch

-- The tunnel's `conn`, with the connections that goroutines have read, those on which CreateStream has
-- failed, those that were swapped out, those that were sent to `failChan`, and those that were closed,
-- once for each goroutine. A connection is numbered when it is put into the tunnel.
pub record Tunnel : Type 0 where
  pub conn : Option ℕ
  pub next : ℕ
  pub held : List ℕ
  pub broken : List ℕ
  pub swapped : List ℕ
  pub reported : List ℕ
  pub closed : List ℕ
  pub switch : Switch

abbrev pub start : Tunnel
start = record {
  conn = none;
  next = 0;
  held = [];
  broken = [];
  swapped = [];
  reported = [];
  closed = [];
  switch = idle;
}

-- a goroutine goes on with its connection
abbrev pub leave : ℕ → List ℕ → List ℕ
leave c [] = []
leave c (x ∷ xs) = if c == x then xs else x ∷ leave c xs

abbrev pub closing : Option ℕ → List ℕ → List ℕ
closing none cs = cs
closing (some c) cs = c ∷ cs

-- One step: the read of `conn`, CreateStream, the compare-and-swap, Close and the send of one of the
-- goroutines; or the read, the Close and the write of SwitchSpdyConn.
pub data Step (s t : Tunnel) : Type 0 where
  reads : (c : ℕ) → s.conn ≡ some c → t ≡ record s { held = c ∷ s.held } → Step s t
  creates : (c : ℕ) → 0 < mult c s.held → t ≡ record s { held = leave c s.held } → Step s t
  fails :
      (c : ℕ)
      → 0 < mult c s.held
      → t ≡ record s { held = leave c s.held; broken = c ∷ s.broken }
      → Step s t
  swaps :
      (c : ℕ)
      → 0 < mult c s.broken
      → s.conn ≡ some c
      → t ≡ record s { conn = none; broken = leave c s.broken; swapped = c ∷ s.swapped }
      → Step s t
  loses :
      (c : ℕ)
      → 0 < mult c s.broken
      → s.conn ≢ some c
      → t ≡ record s { broken = leave c s.broken }
      → Step s t
  reports :
      (c : ℕ)
      → 0 < mult c s.swapped
      → t
        ≡ record s { swapped = leave c s.swapped; closed = c ∷ s.closed; reported = c ∷ s.reported }
      → Step s t
  switch_reads : s.switch ≡ idle → t ≡ record s { switch = saw s.conn } → Step s t
  switch_closes :
      (from : Option ℕ)
      → s.switch ≡ saw from
      → t ≡ record s { switch = shut; closed = closing from s.closed }
      → Step s t
  switch_writes :
      s.switch ≡ shut
      → t ≡ record s { switch = idle; conn = some s.next; next = s.next + 1 }
      → Step s t

pub data Reaches (s : Tunnel) : Tunnel → Type 0 where
  here : Reaches s s
  later : {t u : Tunnel} → Reaches s t → Step t u → Reaches s u
