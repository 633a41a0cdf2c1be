-- ===== src/Engine/Stop.antt =====
-- When Stop returns: the WaitGroup counts the goroutines that go on.
use Prim.Native.String.{String}
use gbalancer.Prelude.{
  ℕ, zero, suc, ◌+◌, ◌≤◌, ◌≡◌, refl, sym, ap, subst, ◌∙◌, Bool, true, false, List, [], ◌∷◌, ◌++◌,
  none, some, arith, inl, inr, Bool-cases, if◌then◌else◌,
}
use mathlib.Core.Option.{some-injective}
use gbalancer.Prelude.Lists.{get_elem?, set}
use gbalancer.Texts.{Text}
use gbalancer.Config.{ListenAddr, get_listen_addrs}
use gbalancer.Ipvs.{new_ipvs, ipvs_local_addr}
use gbalancer.Engine.{
  Listener, Director, absent, directing, directed, Server, new_server, Flags, listen_all,
  native_serve, serve, conn, temporary, failed, on_accept, close_listener, stop, Step, accepts,
  closes, returns, stops, Reaches, here, later,
}

abbrev pub live : Bool → ℕ
live false = 0
live true = 1

-- the loops that go on
abbrev pub loops : List Listener → ℕ
loops [] = 0
loops (l ∷ ls) = live l.going + loops ls

abbrev pub directors : Director → ℕ
directors absent = 0
directors (directing remote i) = 1
directors (directed i) = 0

-- the count is the number of the goroutines that go on
abbrev pub Counted : Server → Type 0
Counted s = s.count ≡ loops s.listeners + directors s.director

loops-append : (xs ys : List Listener) → loops (xs ++ ys) ≡ loops xs + loops ys
loops-append [] ys = omega arith
loops-append (x ∷ xs) ys = omega (arith, loops-append xs ys)

pub loops-set :
    (xs : List Listener) (k : ℕ) (l m : Listener)
    → get_elem? xs k ≡ some l
    → loops (set xs k m) + live l.going ≡ loops xs + live m.going
loops-set [] k l m e = cc
loops-set (x ∷ xs) zero l m e = ground arith
loops-set (x ∷ xs) (suc k) l m e = omega (arith, loops-set xs k l m e)

listen_all-Counted :
    (can_listen : ListenAddr → Bool) (addresses : List ListenAddr) (s t : Server)
    → Counted s
    → listen_all can_listen addresses s ≡ some t
    → Counted t
unfolding listen_all
listen_all-Counted can_listen [] s t h e = ground arith
listen_all-Counted can_listen (a ∷ rest) s t h e =
    let l : Listener = record { address = a; is_open = true; going = true } in
    let u : Server = record s { listeners = s.listeners ++ l ∷ []; count = s.count + 1 } in
    let more : Counted u = omega (arith, loops-append s.listeners (l ∷ []), h) in
    elim (Bool-cases (can_listen a)) [
      | inl listens ↦ listen_all-Counted can_listen rest u t more (rw (listens, listen_all) at e)
      | inr fails ↦
          let never : listen_all can_listen (a ∷ rest) s ≡ none = rw (listen_all, fails) refl in cc
    ]

native_serve-Counted :
    (can_listen : ListenAddr → Bool) (listen : List Text) (t : Server)
    → native_serve can_listen listen new_server ≡ some t
    → Counted t
unfolding native_serve
native_serve-Counted can_listen listen t e = elim (Bool-cases (get_listen_addrs listen).1) [
  | inl good ↦
      let so : listen_all can_listen (get_listen_addrs listen).0 new_server ≡ some t =
        sym (rw (native_serve, good) refl) ∙ e in
      listen_all-Counted can_listen (get_listen_addrs listen).0 new_server t refl so
  | inr bad ↦
      let never : native_serve can_listen listen new_server ≡ none = rw (native_serve, bad) refl in
      cc
]

pub serve-Counted :
    (flags : Flags) (can_listen : ListenAddr → Bool) (addr port : String) (listen : List Text)
    (t : Server)
    → serve flags can_listen addr port listen new_server ≡ some t
    → Counted t
unfolding serve
serve-Counted flags can_listen addr port listen t e = elim (Bool-cases flags.ipvs) [
  | inl ipvs ↦
      let i = new_ipvs (if flags.remote then addr else ipvs_local_addr) port "wlc" in
      let u : Server = record new_server { count = 1; director = directing flags.remote i } in
      let so : some u ≡ some t = sym (rw (serve, ipvs) refl) ∙ e in
      subst Counted (some-injective u t so) refl
  | inr native ↦
      let so : native_serve can_listen listen new_server ≡ some t =
        sym (rw (serve, native) refl) ∙ e in
      native_serve-Counted can_listen listen t so
]

-- a loop that goes on is counted
pub going_counted :
    (xs : List Listener) (k : ℕ) (l : Listener)
    → get_elem? xs k ≡ some l
    → l.going ≡ true
    → 1 ≤ loops xs
going_counted xs k l e up =
    let one : live l.going ≡ 1 = ap live up in
    omega (arith, loops-set xs k l (record l { going = false }) e, one)

pub Step-Counted : (s t : Server) → Counted s → Step s t → Counted t
unfolding on_accept close_listener stop
Step-Counted s t h (accepts k l (conn c) there up shut e) = rw e h
Step-Counted s t h (accepts k l temporary there up shut e) = rw e h
Step-Counted s t h (accepts k l failed there up shut e) =
    let less = loops-set s.listeners k l (record l { going = false }) there in
    let one : live l.going ≡ 1 = ap live up in rw e (omega (arith, less, one, h))
Step-Counted s t h (closes k l there closed e) =
    let same = loops-set s.listeners k l (record l { is_open = false }) there in
    rw e (omega (arith, h, same))
Step-Counted s t h (returns remote i j works own messages before closed ran e) =
    let one : directors s.director ≡ 1 = ap directors before in rw e (omega (arith, h, one))
Step-Counted s t h (stops e) = rw e h

pub Reaches-Counted : (s t : Server) → Counted s → Reaches s t → Counted t
Reaches-Counted s t h here = h
Reaches-Counted s t h (later before step) = Step-Counted _ t (Reaches-Counted s _ h before) step

-- `done` stays closed
Step-closed : (s t : Server) → s.closed ≡ true → Step s t → t.closed ≡ true
unfolding on_accept close_listener stop
Step-closed s t h (accepts k l (conn c) there up shut e) = ap (λ x. x.closed) e ∙ h
Step-closed s t h (accepts k l temporary there up shut e) = ap (λ x. x.closed) e ∙ h
Step-closed s t h (accepts k l failed there up shut e) = ap (λ x. x.closed) e ∙ h
Step-closed s t h (closes k l there closed e) = ap (λ x. x.closed) e ∙ h
Step-closed s t h (returns remote i j works own messages before closed ran e) =
    ap (λ x. x.closed) e ∙ h
Step-closed s t h (stops e) = ap (λ x. x.closed) e

pub Reaches-closed : (s t : Server) → s.closed ≡ true → Reaches s t → t.closed ≡ true
Reaches-closed s t h here = h
Reaches-closed s t h (later before step) = Step-closed _ t (Reaches-closed s _ h before) step

-- the rounds that goroutines do not take part in any more
zero_loops :
    (xs : List Listener) (k : ℕ) (l : Listener)
    → loops xs ≡ 0
    → get_elem? xs k ≡ some l
    → l.going ≡ false
zero_loops xs k l none_left there = elim (Bool-cases l.going) [
  | inl up ↦ absurd (omega (arith, going_counted xs k l there up))
  | inr down ↦ down
]

-- a state that Wait returns in
record Idle (s : Server) : Type 0 where
  counted : Counted s
  zeroed : s.count ≡ 0

-- no step of an idle server accepts a connection
Step-Idle : (s t : Server) → Idle s → Step s t → Idle t × (t.jobs ≡ s.jobs)
unfolding close_listener stop
Step-Idle s t h (accepts k l a there up shut e) =
    absurd (omega (arith, going_counted s.listeners k l there up, h.counted, h.zeroed))
Step-Idle s t h (closes k l there closed e) = (
  record {
    counted = Step-Counted s t h.counted (closes k l there closed e);
    zeroed = ap (λ x. x.count) e ∙ h.zeroed;
  },
  ap (λ x. x.jobs) e,
)
Step-Idle s t h (returns remote i j works own messages before closed ran e) =
    let one : directors s.director ≡ 1 = ap directors before in
    absurd (omega (arith, one, h.counted, h.zeroed))
Step-Idle s t h (stops e) = (
  record {
    counted = Step-Counted s t h.counted (stops e);
    zeroed = ap (λ x. x.count) e ∙ h.zeroed;
  },
  ap (λ x. x.jobs) e,
)

Reaches-Idle : (s t : Server) → Idle s → Reaches s t → Idle t × (t.jobs ≡ s.jobs)
Reaches-Idle s t h here = (h, refl)
Reaches-Idle s t h (later before step) =
    let (idle, same) = Reaches-Idle s _ h before in
    let (more, again) = Step-Idle _ t idle step in (more, again ∙ same)

-- When Wait can return, after any steps of what Serve started, every loop that accepts and the
-- director have returned, and from then on no connection reaches the scheduler.
pub stopped :
    (flags : Flags) (can_listen : ListenAddr → Bool) (addr port : String) (listen : List Text)
    (s t u : Server)
    → serve flags can_listen addr port listen new_server ≡ some s
    → Reaches s t
    → t.count ≡ 0
    → Reaches t u
    → ((k : ℕ) (l : Listener) → get_elem? t.listeners k ≡ some l → l.going ≡ false)
      × (directors t.director ≡ 0)
      × (u.jobs ≡ t.jobs)
stopped flags can_listen addr port listen s t u started reached zeroed more =
    let h =
      Reaches-Counted s t (serve-Counted flags can_listen addr port listen s started) reached in
    (
      λ k l there. zero_loops t.listeners k l (omega arith) there,
      omega arith,
      (Reaches-Idle t u (record { counted = h; zeroed = zeroed }) more).1,
    )
