-- ===== src/Pipeline/Native.antt =====
-- From wrangler/wrangler.go to the registry of engine/native/scheduler.go, next to engine/ipvs/ipvs.go.
use Prim.Native.String.{String}
use gbalancer.Prelude.{ℕ, ◌≡◌, sym, ap, ◌∙◌, inl, inr, Bool, true, false, List, [], ◌∷◌, some, none}
use gbalancer.Prelude.Dict.{Dict, lookup, has}
use gbalancer.Wrangler.{World, Settings, Wrangler, monitor, new_wrangler}
use gbalancer.Ipvs.{new_ipvs, service, event_loop}
use gbalancer.Ipvs.Kernel.{Kernel, run_all, event_loop-kernel}
use gbalancer.Backend.{Backend}
use gbalancer.State.{Scheduler, Request}
use gbalancer.Scheduler.{new_scheduler}
use gbalancer.Scheduler.Reach.{Reaches}
use gbalancer.Scheduler.Latest.{all_heard, latest, registry_latest}
use gbalancer.Pipeline.{in_order, monitor-Told}

-- A new scheduler without tunnels is given objects that hold no requests, are off the heap and have no
-- tunnel. In a state in which it has taken all messages of a wrangler that runs Monitor, and the map
-- of that wrangler is not empty, the registered addresses are exactly those of that map.
pub monitor-registry :
    (c : Settings) (w : Wrangler) (worlds : List World) (lw : Bool) (mem : ℕ → Backend)
    (requests : ℕ → Request) (t : Scheduler) (steps : Reaches (new_scheduler lw 0 mem requests) t)
    (a b : String)
    → new_wrangler c ≡ some w
    → ((i : ℕ) → ((mem i).ongoing ≡ 0) × ((mem i).index ≡ none))
    → ((i : ℕ) → (mem i).tunnel ≡ [])
    → all_heard steps ≡ (monitor worlds w).sent
    → has (lookup b (monitor worlds w).backends) ≡ true
    → has (lookup a t.backends) ≡ has (lookup a (monitor worlds w).backends)
monitor-registry c w worlds lw mem requests t steps a b new free none_yet all up =
    elim (monitor-Told c w worlds new) [
      | inl empty ↦ let never = empty b in cc
      | inr (m, before, sent, keys) ↦
          registry_latest lw mem requests none_yet t free steps a
          ∙ ap (λ ms. has (lookup a (latest ms))) (all ∙ sent)
          ∙ sym (keys a)
    ]

-- The engines agree. The native engine is a new scheduler without tunnels, given objects that hold no
-- requests, are off the heap and have no tunnel, after any steps in which it took some messages; the
-- other one is a new director of ipvs that got the same messages in the same order, and a kernel that
-- had its virtual server without real servers has run the director's commands. Then the kernel has a
-- real server if and only if the scheduler has its address registered.
pub engines_agree :
    (K : Kernel) (addr port scheduler : String) (k : K.State) (lw : Bool) (mem : ℕ → Backend)
    (requests : ℕ → Request) (t : Scheduler) (steps : Reaches (new_scheduler lw 0 mem requests) t)
    (m : Dict ℕ) (before : List (Dict ℕ)) (a : String)
    → ((i : ℕ) → ((mem i).ongoing ≡ 0) × ((mem i).index ≡ none))
    → ((i : ℕ) → (mem i).tunnel ≡ [])
    → all_heard steps ≡ m ∷ before
    → let i = new_ipvs addr port scheduler in
      K.exists k (service i) ≡ true
      → ((x : String) → K.serves k (service i) x ≡ false)
      → K.serves (run_all K (event_loop (in_order (all_heard steps)) i).commands k) (service i) a
        ≡ has (lookup a t.backends)
engines_agree K addr port scheduler k lw mem requests t steps m before a free none_yet all up
      empty =
    let i = new_ipvs addr port scheduler in
    ap (λ ms. K.serves (run_all K (event_loop (in_order ms) i).commands k) (service i) a) all
    ∙ event_loop-kernel K addr port scheduler (in_order before) m k a up empty
    ∙ sym (
        registry_latest lw mem requests none_yet t free steps a
        ∙ ap (λ ms. has (lookup a (latest ms))) all)
