-- ===== src/Backend/Forward.antt =====
-- engine/native/backend.go: which tunnel ForwarderNewConnection takes.
use Prim.Native.String.{String}
use gbalancer.Prelude.{
  ℕ, zero, suc, ◌+◌, ◌<◌, ◌%◌, ◌^◌, ◌≡◌, ◌≢◌, refl, sym, ap, subst, ◌∙◌, ◌⊎◌, inl, inr, List, [],
  ◌∷◌, ◌++◌, Option, none, some, arith, Option-cases, ◌==◌, ℕ_discrete, false,
}
use mathlib.Core.Option.{some-injective}
use gbalancer.Prelude.Lists.{get_elem?, set}
use gbalancer.Backend.{
  ConnTunnel, Backend, Dialed, connected, Forwarded, forward_loop, forwarder_new_connection,
}

-- the index of the tunnel that is tried in round `i`
abbrev pub tried : Backend → ℕ → ℕ → ℕ
tried b cnt i = (cnt + i) % 2 ^ 64 % b.tunnels

-- the tunnel of a round makes a stream
abbrev pub Works : (ℕ → Option ℕ) → Backend → ℕ → ℕ → ℕ → Type 0
Works create b cnt i stream =
    (t : ConnTunnel) × (c : ℕ) × (get_elem? b.tunnel (tried b cnt i) ≡ some t)
    × (t.conn ≡ some c)
    × (create c ≡ some stream)

-- the tunnel of a round is missing, has no connection, or makes no stream of the one that it has
abbrev pub Fails : (ℕ → Option ℕ) → Backend → ℕ → ℕ → Type 0
Fails create b cnt i =
    (t : ConnTunnel) (c : ℕ)
    → get_elem? b.tunnel (tried b cnt i) ≡ some t
    → t.conn ≡ some c
    → create c ≡ none

-- the same in all rounds before `i`
abbrev pub AllFail : (ℕ → Option ℕ) → Backend → ℕ → ℕ → Type 0
AllFail create b cnt i = (j : ℕ) → j < i → Fails create b cnt j

-- the stream is of the first of `n` rounds whose tunnel makes one, or there is no such round
abbrev pub Chosen : (ℕ → Option ℕ) → Backend → ℕ → ℕ → Option ℕ → Type 0
Chosen create b cnt n none = AllFail create b cnt n
Chosen create b cnt n (some stream) =
    (i : ℕ) × (i < n) × Works create b cnt i stream × AllFail create b cnt i

-- the connection `c` of a tunnel makes no stream
abbrev pub IsBroken : (ℕ → Option ℕ) → ConnTunnel → ℕ → Type 0
IsBroken create t c = (t.conn ≡ some c) × (create c ≡ none)

-- a tunnel is as it was, or it has lost a connection that makes no stream
abbrev pub IsWorn : (ℕ → Option ℕ) → ConnTunnel → ConnTunnel → Type 0
IsWorn create t u = (u ≡ t) ⊎ ((c : ℕ) × IsBroken create t c × (u ≡ record t { conn = none }))

-- the tunnels of `v` are those of `b`, each as it was or worn
pub record AllWorn (create : ℕ → Option ℕ) (b v : Backend) : Type 0 where
  pub tunnels : v.tunnels ≡ b.tunnels
  pub present :
      (k : ℕ) (u : ConnTunnel)
      → get_elem? v.tunnel k ≡ some u
      → (t : ConnTunnel) × (get_elem? b.tunnel k ≡ some t) × IsWorn create t u
  pub absent : (k : ℕ) → get_elem? v.tunnel k ≡ none → get_elem? b.tunnel k ≡ none

-- what is reported are connections of the tunnels that make no stream
abbrev pub AllBroken : (ℕ → Option ℕ) → Backend → List (ℕ × ℕ) → Type 0
AllBroken create b [] = Unit {0}
AllBroken create b ((k, c) ∷ rest) =
    ((t : ConnTunnel) × (get_elem? b.tunnel k ≡ some t) × IsBroken create t c)
    × AllBroken create b rest

AllBroken-append :
    (create : ℕ → Option ℕ) (b : Backend) (xs ys : List (ℕ × ℕ))
    → AllBroken create b xs
    → AllBroken create b ys
    → AllBroken create b (xs ++ ys)
AllBroken-append create b [] ys h k = k
AllBroken-append create b ((i, c) ∷ xs) ys (h, hs) k = (h, AllBroken-append create b xs ys hs k)

set-cases :
    (xs : List ConnTunnel) (i j : ℕ) (v t : ConnTunnel)
    → get_elem? (set xs i v) j ≡ some t
    → ((i ≡ j) × (t ≡ v)) ⊎ ((i ≢ j) × (get_elem? xs j ≡ some t))
set-cases [] i j v t e = cc
set-cases (x ∷ xs) zero zero v t e = inl (refl, sym (some-injective v t e))
set-cases (x ∷ xs) zero (suc j) v t e = inr (λ same. omega arith, e)
set-cases (x ∷ xs) (suc i) zero v t e = inr (λ same. omega arith, e)
set-cases (x ∷ xs) (suc i) (suc j) v t e = elim (set-cases xs i j v t e) [
  | inl (same, here) ↦ inl (ap suc same, here)
  | inr (other, there) ↦ inr (λ same. other (omega arith), there)
]

set-none :
    (xs : List ConnTunnel) (i j : ℕ) (v : ConnTunnel)
    → get_elem? (set xs i v) j ≡ none
    → get_elem? xs j ≡ none
set-none [] i j v e = refl
set-none (x ∷ xs) zero zero v e = cc
set-none (x ∷ xs) zero (suc j) v e = e
set-none (x ∷ xs) (suc i) zero v e = cc
set-none (x ∷ xs) (suc i) (suc j) v e = set-none xs i j v e

module _ (create : ℕ → Option ℕ) (b : Backend) (cnt : ℕ) where
  AllFail-suc :
      (i : ℕ) → AllFail create b cnt i → Fails create b cnt i → AllFail create b cnt (i + 1)
  AllFail-suc i h last j le = elim (ℕ_discrete j i) [
    | yes here ↦ subst (Fails create b cnt) (sym here) last
    | no before ↦ h j (omega arith)
  ]

  -- a tunnel loses the connection that makes no stream
  drop-AllWorn :
      (v : Backend) (k c : ℕ) (t : ConnTunnel)
      → AllWorn create b v
      → get_elem? b.tunnel k ≡ some t
      → IsBroken create t c
      → AllWorn create b (record v { tunnel = set v.tunnel k (record t { conn = none }) })
  drop-AllWorn v k c t h at broken = record {
    tunnels = h.tunnels;
    present = λ j u e. elim (set-cases v.tunnel k j (record t { conn = none }) u e) [
      | inl (same, now) ↦ (t, ap (get_elem? b.tunnel) (sym same) ∙ at, inr (c, broken, now))
      | inr (other, there) ↦ h.present j u there
    ];
    absent = λ j e. h.absent j (set-none v.tunnel k j _ e);
  }

  Fails-of :
      (i : ℕ) (t : ConnTunnel)
      → get_elem? b.tunnel (tried b cnt i) ≡ some t
      → ((c : ℕ) → t.conn ≡ some c → create c ≡ none)
      → Fails create b cnt i
  Fails-of i t here h u c e live = h c (ap (λ x. x.conn) (some-injective t u (sym here ∙ e)) ∙ live)

  -- a connection that is gone makes no stream, and one that is there was there before
  worn_closed :
      (t u : ConnTunnel) (c : ℕ)
      → IsWorn create t u
      → u.conn ≡ none
      → t.conn ≡ some c
      → create c ≡ none
  worn_closed t u c (inl same) closed live =
      let gone : t.conn ≡ none = ap (λ x. x.conn) (sym same) ∙ closed in cc
  worn_closed t u c (inr (d, (had, dead), e)) closed live =
      ap create (some-injective c d (sym live ∙ had)) ∙ dead

  worn_live : (t u : ConnTunnel) (c : ℕ) → IsWorn create t u → u.conn ≡ some c → u ≡ t
  worn_live t u c (inl same) live = same
  worn_live t u c (inr (d, broken, e)) live = let gone : u.conn ≡ none = ap (λ x. x.conn) e in cc

  -- what holds of the rounds when the loop has come to its end
  Ended : ℕ → Forwarded → Type 0
  Ended n f =
      Chosen create b cnt n f.stream × AllWorn create b f.backend × AllBroken create b f.failed

  forward_loop-Ended :
      (k i n : ℕ) (v : Backend) (failed : List (ℕ × ℕ))
      → i + k ≡ n
      → AllFail create b cnt i
      → AllWorn create b v
      → AllBroken create b failed
      → Ended n (forward_loop create k i cnt v failed)
  unfolding forward_loop Ended
  forward_loop-Ended zero i n v failed sum h w g =
      (subst (AllFail create b cnt) (omega arith) h, w, g)
  forward_loop-Ended (suc k) i n v failed sum h w g =
      let at = tried v cnt i in
      let same : at ≡ tried b cnt i = ap (λ m. (cnt + i) % 2 ^ 64 % m) w.tunnels in
      elim (Option-cases (get_elem? v.tunnel at)) [
        | inl out ↦
            let never : get_elem? b.tunnel (tried b cnt i) ≡ none =
              ap (get_elem? b.tunnel) (sym same) ∙ w.absent at out in
            rw (out, forward_loop)
              (forward_loop-Ended k (i + 1) n v failed (omega arith)
                (AllFail-suc i h (λ t c e live. cc)) w g)
        | inr (u, there) ↦
            let (t, was, worn) = w.present at u there in
            let here : get_elem? b.tunnel (tried b cnt i) ≡ some t =
              ap (get_elem? b.tunnel) (sym same) ∙ was in
            elim (Option-cases u.conn) [
              | inl closed ↦
                  rw (there, forward_loop, closed)
                    (forward_loop-Ended k (i + 1) n v failed (omega arith)
                      (AllFail-suc i h (Fails-of i t here (λ c. worn_closed t u c worn closed))) w
                      g)
              | inr (c, live) ↦
                  let kept = worn_live t u c worn live in
                  let had : t.conn ≡ some c = ap (λ x. x.conn) (sym kept) ∙ live in
                  elim (Option-cases (create c)) [
                    | inr (stream, made) ↦
                        rw (there, forward_loop, live, made)
                          ((i, omega arith, (t, c, here, had, made), h), w, g)
                    | inl broken ↦
                        rw (there, forward_loop, live, broken)
                          (forward_loop-Ended k (i + 1) n _ _ (omega arith)
                            (AllFail-suc i h (
                              Fails-of i t here
                                (λ d e. ap create (some-injective d c (sym e ∙ had)) ∙ broken)))
                            (subst
                              (λ x.
                                AllWorn create b (record v {
                                  tunnel = set v.tunnel at (record x { conn = none });
                                }))
                              (sym kept) (drop-AllWorn v at c t w was (had, broken)))
                            (AllBroken-append create b failed ((at, c) ∷ []) g
                              ((t, was, (had, broken)), tt)))
                  ]
            ]
      ]

-- a stream, or else what a dial of the backend comes to
abbrev pub stream_or_dial : (String → Dialed) → Backend → Option ℕ → Dialed
stream_or_dial dial b none = dial b.address
stream_or_dial dial b (some stream) = connected stream

-- With tunnels ForwarderNewConnection tries in each of its rounds the tunnel that it comes to, from the
-- one that `count` gives on: it returns a stream of the first one that has a connection and makes a
-- stream of it, and dials the address only if none of them does. Each tunnel is as it was before, or
-- has lost a connection that makes no stream, and only such connections are reported as failed.
pub forwarder_new_connection-Chosen :
    (create : ℕ → Option ℕ) (dial : String → Dialed) (b : Backend)
    → b.tunnels ≢ 0
    → let (d, after, failed) = forwarder_new_connection create dial b in
      (stream : Option ℕ) × (d ≡ stream_or_dial dial b stream)
      × Chosen create b b.count b.tunnels stream
      × AllWorn create b after
      × AllBroken create b failed
unfolding forwarder_new_connection Ended
forwarder_new_connection-Chosen create dial b tunnelled =
    let f = forward_loop create b.tunnels 0 b.count b [] in
    let never : (b.tunnels == 0) ≡ false = ground (arith, tunnelled) in
    let (chosen, worn, broken) =
      forward_loop-Ended create b b.count b.tunnels 0 b.tunnels b [] (omega arith)
        (λ j le. absurd (omega arith))
        (record { tunnels = refl; present = λ k u e. (u, e, inl refl); absent = λ k e. e }) tt in
    rw never (f.stream, same f.stream, chosen, worn, broken)
  where
    same :
        (o : Option ℕ)
        → (elim o [ none ↦ dial b.address | some s ↦ connected s ]) ≡ stream_or_dial dial b o
    same none = refl
    same (some s) = refl
