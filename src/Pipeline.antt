-- ===== src/Pipeline.antt =====
-- From the wrangler over the ipvs engine to the kernel.
pub mod Native
use Prim.Native.String.{String}
use mathlib.Core.Option.{some-injective}
use gbalancer.Prelude.{
  ℕ, ◌≡◌, refl, sym, ap, ◌∙◌, ◌⊎◌, inl, inr, true, false, List, [], ◌∷◌, ◌++◌, none, some, arith,
  Bool-cases, Option-cases, ltb,
}
use gbalancer.Prelude.Dict.{Dict, lookup, has}
use gbalancer.Prelude.Lists.{length}
use gbalancer.Wrangler.{
  World, Settings, Wrangler, build_active_backends, take_answer, valid_backends, wait_first, watch,
  monitor, new_wrangler, choose_driver, add_directors,
}
use gbalancer.Wrangler.Sync.{take_answer_keys}
use gbalancer.Wrangler.Probe.{Answer}
use gbalancer.Ipvs.{new_ipvs, service, event_loop}
use gbalancer.Ipvs.Kernel.{Kernel, run_all, event_loop-kernel}

-- the messages in the order in which they are sent
abbrev pub in_order : List (Dict ℕ) → List (Dict ℕ)
in_order [] = []
in_order (m ∷ before) = in_order before ++ m ∷ []

-- the map is empty, or it has the keys of the latest message
abbrev Told : Wrangler → Type 0
Told w =
    ((a : String) → has (lookup a w.backends) ≡ false)
    ⊎ ((m : Dict ℕ) × (before : List (Dict ℕ)) × (w.sent ≡ m ∷ before)
        × ((a : String) → has (lookup a w.backends) ≡ has (lookup a m)))

take_answer-Told : (w : Wrangler) (r : Answer) → Told w → Told (take_answer w r)
unfolding take_answer lookup
take_answer-Told w (active, some e) h = h
take_answer-Told w ([], none) h = inl (take_answer_keys w [])
take_answer-Told w (m ∷ active, none) h =
    inr (m ∷ active, w.sent, ground arith, take_answer_keys w (m ∷ active))

valid_backends-Told : (now : World) (w : Wrangler) → Told w → Told (valid_backends now w)
unfolding valid_backends
valid_backends-Told now w h =
    let (d, r) = build_active_backends now w.health_exec in
    take_answer-Told (record w { health_exec = d }) r h

watch-Told : (worlds : List World) (w : Wrangler) → Told w → Told (watch worlds w)
unfolding watch
watch-Told [] w h = h
watch-Told (now ∷ later) w h = watch-Told later (valid_backends now w) (valid_backends-Told now w h)

wait_first-Told : (worlds : List World) (w : Wrangler) → Told w → Told (wait_first worlds w).0
unfolding wait_first
wait_first-Told [] w h = h
wait_first-Told (now ∷ later) w h =
    elim (Bool-cases (ltb 0 (length (valid_backends now w).backends))) [
      | inl up ↦ rw (up, wait_first) (valid_backends-Told now w h)
      | inr down ↦
          rw (down, wait_first)
            (wait_first-Told later (valid_backends now w) (valid_backends-Told now w h))
    ]

new_wrangler-Told : (c : Settings) (w : Wrangler) → new_wrangler c ≡ some w → Told w
unfolding new_wrangler lookup
new_wrangler-Told c w e = elim (Option-cases (choose_driver c)) [
  | inl nothing ↦ let never : new_wrangler c ≡ none = rw (nothing, new_wrangler) refl in cc
  | inr (d, chosen) ↦
      let new : Wrangler = record {
        health_exec = add_directors d c.backend;
        backends = [];
        sent = [];
      } in
      let made : new_wrangler c ≡ some new = rw (chosen, new_wrangler) refl in
      inl (λ a. ap (λ x. has (lookup a x.backends)) (some-injective w new (sym e ∙ made)))
]

pub monitor-Told :
    (c : Settings) (w : Wrangler) (worlds : List World)
    → new_wrangler c ≡ some w
    → Told (monitor worlds w)
unfolding monitor
monitor-Told c w worlds new =
    let v = wait_first worlds w in
    watch-Told v.1 v.0 (wait_first-Told worlds w (new_wrangler-Told c w new))

-- Whenever the map of a wrangler's monitor is not empty, a kernel that had a virtual server without
-- real servers, and has run the commands of a new director that got all messages of the monitor, has
-- exactly the backends of that map as real servers.
pub monitor-kernel :
    (K : Kernel) (c : Settings) (w : Wrangler) (worlds : List World) (addr port scheduler : String)
    (k : K.State) (a b : String)
    → new_wrangler c ≡ some w
    → let u = monitor worlds w in
      let i = new_ipvs addr port scheduler in
      has (lookup b u.backends) ≡ true
      → K.exists k (service i) ≡ true
      → ((x : String) → K.serves k (service i) x ≡ false)
      → K.serves (run_all K (event_loop (in_order u.sent) i).commands k) (service i) a
        ≡ has (lookup a u.backends)
monitor-kernel K c w worlds addr port scheduler k a b new some_up up none_yet =
    let i = new_ipvs addr port scheduler in
    elim (monitor-Told c w worlds new) [
      | inl empty ↦ let never = empty b in cc
      | inr (m, before, sent, keys) ↦
          ap (λ ms. K.serves (run_all K (event_loop (in_order ms) i).commands k) (service i) a) sent
          ∙ event_loop-kernel K addr port scheduler (in_order before) m k a up none_yet
          ∙ sym (keys a)
    ]
