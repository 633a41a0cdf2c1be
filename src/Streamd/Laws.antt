-- ===== src/Streamd/Laws.antt =====
-- The pid file of an agent.
use Prim.Native.String.{String}
use text.Mathlib.Text.{◌==◌ as str_eq}
use gbalancer.Prelude.{
  ◌<◌, ◌≡◌, refl, ap, ◌∙◌, true, false, Bool-cases, inl, inr, Option, none, some,
}
use gbalancer.Texts.{Text}
use gbalancer.Decimal.{pos, itoa}
use gbalancer.Decimal.Laws.{power}
use gbalancer.Pidfile.{Pid, written, taken, write_pid}
use gbalancer.Pidfile.Laws.{write_pid-excludes, write_pid-written}
use gbalancer.Daemon.{Files, put}
use gbalancer.Daemon.Setup.{put_same}
use gbalancer.Streamd.{Host, exits, listens, listen, after_pid, main, leave}

-- an agent with a pid file
main-named :
    (host : Host) (name address : String) (files : Files) (r : Pid × Option Text)
    → str_eq name "" ≡ false
    → write_pid host.os host.own (files name) ≡ r
    → main host name address files ≡ after_pid host name address files r
unfolding main
main-named host name address files r named wrote =
    rw (named, main) (ap (λ x. after_pid host name address files x) wrote)

-- An agent that can write its pid file and listen does so, and takes the file away at a signal. Until
-- then, as long as it is alive and if its pid has at most eight digits, a second agent that is given the
-- same pid file ends with the status 1, and leaves all files as they are.
pub main-excludes :
    (host second : Host) (name address other : String) (files : Files) (content : Option Text)
    → str_eq name "" ≡ false
    → write_pid host.os host.own (files name) ≡ (written, content)
    → host.can_listen address ≡ true
    → host.can_remove ≡ true
    → host.own < power 8
    → second.os.can_open ≡ true
    → second.os.alive (pos host.own) ≡ true
    → (after : Files) × (same : Files) × (main host name address files ≡ listens after)
      × (after name ≡ some (itoa host.own))
      × (main second name other after ≡ exits same)
      × ((x : String) → same x ≡ after x)
      × (leave host name after name ≡ none)
unfolding after_pid leave
main-excludes host second name address other files content named wrote can gone small open_ok up =
    let after = put files name content in
    let here = put_same files name content in
    let busy =
      ap (write_pid second.os second.own) here
      ∙ write_pid-excludes host.os second.os host.own second.own (files name) content small wrote
          open_ok up in
    (
      after,
      put after name content,
      main-named host name address files (written, content) named wrote
          ∙ rw (after_pid, listen, can) refl,
      here ∙ write_pid-written host.os host.own (files name) content wrote,
      main-named second name other after (taken (pos host.own), content) named busy,
      again,
      rw (named, leave, gone) (put_same after name none),
    )
  where
    again : (x : String) → put (put files name content) name content x ≡ put files name content x
    again x = elim (Bool-cases (str_eq name x)) [ inl eq ↦ rw eq refl | inr ne ↦ rw ne refl ]
