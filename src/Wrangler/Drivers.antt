-- ===== src/Wrangler/Drivers.antt =====
-- wrangler/wrangler_tcp.go, wrangler_http.go and wrangler_ext.go under wrangler/wrangler.go: what a
-- configured wrangler asks of its backends.
use Prim.Native.String.{String, ◌++◌ as ◌<>◌}
use text.Mathlib.Text.{◌==◌ as str_eq}
use mathlib.Core.List.{append_assoc, append-nil}
use mathlib.Core.Option.{some-injective}
use gbalancer.Prelude.{
  ◌≡◌, refl, sym, ap, subst, ◌∙◌, Bool, true, false, not, ◌&&◌, List, [], ◌∷◌, ◌++◌, Option, none,
  some, arith, if◌then◌else◌, Bool-cases, inl, inr,
}
use gbalancer.Prelude.Dict.{lookup}
use gbalancer.Texts.{occurs}
use gbalancer.Backend.{GoError, Dialed, connected, refused}
use gbalancer.Wrangler.{
  Driver, tcp, http, ext, World, Settings, add_director, add_directors, choose_driver,
  build_active_backends,
}
use gbalancer.Wrangler.Probe.{
  Network, Answer, Tcp, Http, Ext, flag_up, new_tcp, new_http, new_ext, add_tcp, add_http, add_ext,
  tcp_probe, http_probe, ext_probe, build, build_tcp, build_http, build_ext,
}
use gbalancer.Wrangler.Probe.Laws.{succeeds, build-IsActive}

abbrev pub connects : Dialed → Bool
connects (connected c) = true
connects (refused e) = false

-- Whether a backend is up for a service: it can be dialled, it answers a request for its root, or the
-- command succeeds for it.
abbrev pub is_up : Settings → Network → String → Bool
is_up c net a =
    if str_eq c.service "tcp"
    then connects (net.dial a)
    else if str_eq c.service "http"
    then succeeds (net.get ("http://" <> a <> "/"))
    else succeeds (net.command c.ext_command a)

-- no error, and exactly the backends that are up
abbrev pub Reports : (String → Bool) → List String → Answer → Type 0
Reports up backends r =
    (r.1 ≡ none)
    × ((a : String) → lookup a r.0 ≡ (if occurs a backends && up a then some flag_up else none))

add_directors-tcp :
    (bs : List String) (t : Tcp)
    → add_directors (tcp t) bs ≡ tcp (record { director = t.director ++ bs })
unfolding add_directors add_director add_tcp
add_directors-tcp [] t = ap (λ l. tcp (record { director = l })) (sym (append-nil t.director))
add_directors-tcp (b ∷ bs) t =
    add_directors-tcp bs (add_tcp t b).0
    ∙ ap (λ l. tcp (record { director = l })) (append_assoc t.director (b ∷ []) bs)

add_directors-http :
    (bs : List String) (t : Http)
    → add_directors (http t) bs ≡ http (record { director = t.director ++ bs })
unfolding add_directors add_director add_http
add_directors-http [] t = ap (λ l. http (record { director = l })) (sym (append-nil t.director))
add_directors-http (b ∷ bs) t =
    add_directors-http bs (add_http t b).0
    ∙ ap (λ l. http (record { director = l })) (append_assoc t.director (b ∷ []) bs)

add_directors-ext :
    (bs : List String) (t : Ext)
    → add_directors (ext t) bs ≡ ext (record t { director = t.director ++ bs })
unfolding add_directors add_director add_ext
add_directors-ext [] t = ap (λ l. ext (record t { director = l })) (sym (append-nil t.director))
add_directors-ext (b ∷ bs) t =
    add_directors-ext bs (add_ext t b).0
    ∙ ap (λ l. ext (record t { director = l })) (append_assoc t.director (b ∷ []) bs)

module _ (w : World) (c : Settings) (b : String) (bs : List String)
    (arrived : (a : String) → occurs a (w.network.arrive (b ∷ bs)) ≡ occurs a (b ∷ bs)) where
  -- what is reported of the backends, if a driver probes each of them
  reported :
      (probe : String → Option GoError)
      → ((a : String) → succeeds (probe a) ≡ is_up c w.network a)
      → Reports (is_up c w.network) (b ∷ bs) (build w.network probe (b ∷ bs))
  reported probe same =
      let (fine, active) = build-IsActive w.network probe b bs arrived in
      (
        fine,
        λ a. active a ∙ ap (λ x. if occurs a (b ∷ bs) && x then some flag_up else none) (same a),
      )

  -- the driver, once it has the backends, answers as it should
  abbrev Answers : Driver → Type 0
  Answers d =
      Reports (is_up c w.network) (b ∷ bs) (build_active_backends w (add_directors d (b ∷ bs))).1

  tcp-Answers : str_eq c.service "tcp" ≡ true → Answers (tcp new_tcp)
  unfolding build_active_backends build_tcp tcp_probe new_tcp
  tcp-Answers named =
      rw (add_directors-tcp (b ∷ bs) new_tcp)
        (reported (tcp_probe w.network) (λ a. rw (is_up, named) (dialled (w.network.dial a))))
    where
      dialled :
          (d : Dialed) → succeeds (elim d [ connected _ ↦ none | refused e ↦ some e ]) ≡ connects d
      dialled (connected k) = refl
      dialled (refused e) = refl

  http-Answers :
      str_eq c.service "tcp" ≡ false → str_eq c.service "http" ≡ true → Answers (http new_http)
  unfolding build_active_backends build_http http_probe new_http
  http-Answers other named =
      rw (add_directors-http (b ∷ bs) new_http)
        (reported (http_probe w.network) (λ a. rw (is_up, other, named) refl))

  ext-Answers :
      str_eq c.service "tcp" ≡ false
      → str_eq c.service "http" ≡ false
      → Answers (ext (new_ext c.ext_command))
  unfolding build_active_backends build_ext ext_probe new_ext
  ext-Answers no_tcp no_http =
      rw (add_directors-ext (b ∷ bs) (new_ext c.ext_command))
        (reported (ext_probe w.network c.ext_command) (λ a. rw (is_up, no_tcp, no_http) refl))

  chosen-Answers :
      (d : Driver) → str_eq c.service "galera" ≡ false → choose_driver c ≡ some d → Answers d
  unfolding choose_driver
  chosen-Answers d plain chosen = elim (Bool-cases (str_eq c.service "tcp")) [
    | inl is_tcp ↦
        let so : choose_driver c ≡ some (tcp new_tcp) = rw (choose_driver, plain, is_tcp) refl in
        subst Answers (some-injective _ _ (sym so ∙ chosen)) (tcp-Answers is_tcp)
    | inr no_tcp ↦ elim (Bool-cases (str_eq c.service "http")) [
      | inl is_http ↦
          let so : choose_driver c ≡ some (http new_http) =
            rw (choose_driver, plain, no_tcp, is_http) refl in
          subst Answers (some-injective _ _ (sym so ∙ chosen)) (http-Answers no_tcp is_http)
      | inr no_http ↦ elim (Bool-cases (str_eq c.service "ext" && not (str_eq c.ext_command ""))) [
        | inl is_ext ↦
            let so : choose_driver c ≡ some (ext (new_ext c.ext_command)) =
              rw (choose_driver, plain, no_tcp, no_http) (ground (arith, is_ext)) in
            subst Answers (some-injective _ _ (sym so ∙ chosen)) (ext-Answers no_tcp no_http)
        | inr no_ext ↦
            let never : choose_driver c ≡ none =
              rw (choose_driver, plain, no_tcp, no_http) (ground (arith, no_ext)) in
            cc
      ]
    ]
  ]

-- A wrangler is configured for the service tcp, http or ext, with at least one backend, and the results
-- of the probes of its driver arrive in any order. Then BuildActiveBackends of the driver, once it has
-- the configured backends, reports no error and exactly those of them that are up: those that can be
-- dialled, for tcp; those whose root an HTTP request gets, for http; those for which the configured
-- command succeeds, for ext.
pub build_active_backends-Reports :
    (w : World) (c : Settings) (d : Driver) (b : String) (bs : List String)
    → str_eq c.service "galera" ≡ false
    → choose_driver c ≡ some d
    → c.backend ≡ b ∷ bs
    → ((a : String) → occurs a (w.network.arrive (b ∷ bs)) ≡ occurs a (b ∷ bs))
    → Reports (is_up c w.network) c.backend (build_active_backends w (add_directors d c.backend)).1
build_active_backends-Reports w c d b bs plain chosen backends arrived =
    subst (λ l. Reports (is_up c w.network) l (build_active_backends w (add_directors d l)).1)
      (sym backends) (chosen-Answers w c b bs arrived d plain chosen)
