-- ===== src/Daemon/Launch.antt =====
-- The processes that come of one start of the program.
use Prim.Native.String.{String}
use text.Mathlib.Text.{◌==◌ as str_eq}
use text.Mathlib.TextEquality.{eq_iff}
use gbalancer.Prelude.{
  ◌∙◌, Bool-cases, inl, inr, ap, ℕ, ◌≡◌, refl, ◌<◌, Bool, true, false, [], ◌∷◌, Option, none, some,
  if◌then◌else◌,
}
use gbalancer.Texts.{Text}
use gbalancer.Decimal.{pos, itoa}
use gbalancer.Decimal.Laws.{power}
use gbalancer.Pidfile.{Os, written, write_pid}
use gbalancer.Pidfile.Laws.{write_pid-excludes, write_pid-written}
use gbalancer.Daemon.{
  chld, Environ, clean, System, notify, start, chdir, put, output, proceeds, supervises, exits,
  Files, setup_pidfile, background, parent, child, sink, clean_pidfile, wait_signal,
}
use gbalancer.Daemon.Log.{LogFile, create_logfile}
use gbalancer.Daemon.Supervisor.{supervisor_sink}
use gbalancer.Daemon.Setup.{
  born, as_child, as_worker, signals, configured, HasPidfile, CanFork, put_same, worker_lem,
  resolve_ok, setup_ok, setup_taken,
}

module _ (sys : System) (name path exe : String) (log : LogFile) (files : Files)
    (h : HasPidfile sys name path) where
  sink_ok :
      (foreground : Bool) (e : Environ)
      → sink sys (born (configured name foreground log) e files) ≡ (
          let q = record (born (configured path foreground log) e files) { acts = signals ∷ [] } in
          if foreground then setup_pidfile sys q else background sys q)
  unfolding sink
  sink_ok foreground e =
      rw
        (
          sink,
          resolve_ok sys
              (record (born (configured name foreground log) e files) { acts = signals ∷ [] }) path
              h,
        )
        refl

  parent_lem :
      CanFork sys exe
      → let p = supervisor_sink sys (born (configured name false log) clean files) in
        (p.fate ≡ exits 0)
        × (p.files ≡ files)
        × (p.acts
            ≡ signals
              ∷ notify (chld ∷ [])
              ∷ start exe as_child (output (create_logfile sys.open_log sys.program log))
              ∷ [])
  unfolding supervisor_sink background parent
  parent_lem f =
      rw
        (
          supervisor_sink,
          sink_ok false clean,
          background,
          f.found,
          f.can_setenv,
          parent,
          f.can_start,
          f.stays,
        )
        (refl, refl, refl)

  child_lem :
      (content : Option Text)
      → CanFork sys exe
      → write_pid sys.os sys.own (files path) ≡ (written, content)
      → let p = supervisor_sink sys (born (configured name false log) as_child files) in
        (p.fate ≡ supervises)
        × (p.files ≡ put files path content)
        × (p.environ ≡ as_worker)
        × (p.daemon.command ≡ some exe)
  unfolding supervisor_sink background child
  child_lem content f wrote =
      let q =
        record (born (record (configured path false log) { command = some exe }) as_child files) {
          acts = signals ∷ chdir "/" ∷ [];
        } in
      rw
        (
          supervisor_sink,
          sink_ok false as_child,
          background,
          f.found,
          child,
          setup_ok sys q content h.proper wrote,
          f.can_setenv,
        )
        (refl, refl, refl, refl)

  foreground_lem :
      (content : Option Text)
      → write_pid sys.os sys.own (files path) ≡ (written, content)
      → supervisor_sink sys (born (configured name true log) clean files)
        ≡ record (born (configured path true log) clean (put files path content)) {
          acts = signals ∷ [];
        }
  unfolding supervisor_sink
  foreground_lem content wrote =
      let q = record (born (configured path true log) clean files) { acts = signals ∷ [] } in
      rw (supervisor_sink, sink_ok true clean, setup_ok sys q content h.proper wrote) refl

  -- A process that would run in the foreground, or watch over a worker, ends with the status 1 and leaves
  -- all files alone as long as the process that wrote the pid file is alive, if that has a pid of at most
  -- eight digits and the file can be opened.
  second_exits :
      (os : Os) (own : ℕ) (before : Option Text)
      → CanFork sys exe
      → own < power 8
      → write_pid os own before ≡ (written, files path)
      → sys.os.can_open ≡ true
      → sys.os.alive (pos own) ≡ true
      → let p = supervisor_sink sys (born (configured name true log) clean files) in
        let q = supervisor_sink sys (born (configured name false log) as_child files) in
        ((p.fate ≡ exits 1) × ((x : String) → p.files x ≡ files x))
        × ((q.fate ≡ exits 1) × ((x : String) → q.files x ≡ files x))
  unfolding supervisor_sink background child
  second_exits os own before f small first open_ok up =
      let busy =
        write_pid-excludes os sys.os own sys.own before (files path) small first open_ok up in
      let p = record (born (configured path true log) clean files) { acts = signals ∷ [] } in
      let q =
        record (born (record (configured path false log) { command = some exe }) as_child files) {
          acts = signals ∷ chdir "/" ∷ [];
        } in
      (
        rw
            (
              supervisor_sink,
              sink_ok true clean,
              setup_taken sys p (files path) (pos own) h.proper busy,
            )
            (refl, same),
        rw
            (
              supervisor_sink,
              sink_ok false as_child,
              background,
              f.found,
              child,
              setup_taken sys q (files path) (pos own) h.proper busy,
            )
            (refl, same),
      )
    where
      same : (x : String) → put files path (files path) x ≡ files x
      same x = elim (Bool-cases (str_eq path x)) [
        | inl here ↦ rw here (ap files ((eq_iff path x).0 here))
        | inr there ↦ rw there refl
      ]

  -- A foreground process writes its pid file, and takes it away again when a signal has ended it.
  pub foreground_cycle :
      (can_remove : String → Bool) (content : Option Text)
      → write_pid sys.os sys.own (files path) ≡ (written, content)
      → can_remove path ≡ true
      → let p = supervisor_sink sys (born (configured name true log) clean files) in
        (p.fate ≡ proceeds)
        × (p.files path ≡ some (itoa sys.own))
        × ((wait_signal can_remove p).files path ≡ none)
  unfolding wait_signal clean_pidfile
  foreground_cycle can_remove content wrote removable =
      let own =
        put_same files path content ∙ write_pid-written sys.os sys.own (files path) content wrote in
      rw (foreground_lem content wrote) (
        refl,
        own,
        rw (wait_signal, clean_pidfile, h.proper, removable)
            (put_same (put files path content) path none),
      )

-- One start of the program with a pid file. The process that the user starts ends with the status 0,
-- touches no file and starts one that supervises; that one writes the pid file and starts workers,
-- and a worker goes on to serve at once, without a pid file or a signal of its own.
pub launch :
    (user monitor worker : System) (name path exe : String) (log : LogFile) (files : Files)
    (content : Option Text)
    → HasPidfile user name path
    → CanFork user exe
    → HasPidfile monitor name path
    → CanFork monitor exe
    → write_pid monitor.os monitor.own (files path) ≡ (written, content)
    → let d = configured name false log in
      let u = supervisor_sink user (born d clean files) in
      let m = supervisor_sink monitor (born d as_child files) in
      (u.fate ≡ exits 0)
      × (u.files ≡ files)
      × (u.acts
          ≡ signals
            ∷ notify (chld ∷ [])
            ∷ start exe as_child (output (create_logfile user.open_log user.program log))
            ∷ [])
      × (m.fate ≡ supervises)
      × (m.files path ≡ some (itoa monitor.own))
      × (m.daemon.command ≡ some exe)
      × (supervisor_sink worker (born d m.environ m.files) ≡ born d as_worker m.files)
launch user monitor worker name path exe log files content hu fu hm fm wrote =
    let (ends, untouched, acts) = parent_lem user name path exe log files hu fu in
    let (watches, changed, environ, command) =
      child_lem monitor name path exe log files hm content fm wrote in
    let own =
      ap (λ f. f path) changed
      ∙ put_same files path content
      ∙ write_pid-written monitor.os monitor.own (files path) content wrote in
    (ends, untouched, acts, watches, own, command, rw environ (worker_lem worker _ _))
