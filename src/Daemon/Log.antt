-- ===== src/Daemon/Log.antt =====
-- daemon/logfile.go, and the choice of the log in daemon/daemon.go.
use Prim.Native.String.{String, ◌++◌ as ◌<>◌}
use text.Mathlib.Text.{◌==◌ as str_eq}
use gbalancer.Prelude.{
  Bool, true, false, ℕ, zero, suc, List, [], ◌∷◌, ◌++◌, Option, none, some, if◌then◌else◌, leb,
}
use gbalancer.Prelude.Lists.{length}
use gbalancer.Texts.{Text, bytes, split}

-- A logFile: its path, and the size of the file when it was opened.
pub record LogFile : Type 0 where
  pub path : String
  pub offset : ℕ

-- path.Base: the last element that is not empty
abbrev pub last_part : String → List String → String
last_part found [] = found
last_part found (a ∷ rest) = last_part (if str_eq a "" then found else a) rest

abbrev pub base : String → String
base path = if str_eq path "" then "." else last_part "/" (split b'/' path)

-- logFile.Open, where `sizes` gives the size of the file that os.OpenFile opens: the file's end is
-- noted, unless there is an error
unfoldable pub open_file : (String → Option ℕ) → LogFile → LogFile × Bool
open_file sizes l = elim (sizes l.path) [
  | none ↦ (l, false)
  | some size ↦ (record l { offset = size }, true)
]

-- createLogfile, with whether the file was opened
unfoldable pub create_logfile : (String → Option ℕ) → String → LogFile → LogFile × Bool
unfolding open_file
create_logfile sizes program l =
    let path = if str_eq l.path "" then "/tmp/" <> (base program <> ".log") else l.path in
    open_file sizes (record l { path = path })

abbrev drop : ℕ → Text → Text
drop zero t = t
drop (suc n) [] = []
drop (suc n) (c ∷ t) = drop n t

abbrev padded : ℕ → Text → Text
padded zero t = []
padded (suc n) [] = 0 ∷ padded n []
padded (suc n) (c ∷ t) = c ∷ padded n t

-- logFile.Dump of a file's content: what goes to the given output, and what to the standard one
unfoldable pub dump : LogFile → Text → Text × Text
dump l content =
    let new = drop l.offset content in
    let fence = bytes "```" ++ 10 ∷ [] in
    let shown = bytes "daemon output:" ++ 10 ∷ fence ++ padded 2048 new in
    let more =
      bytes "  ..."
      ++ 10 ∷ fence
      ++ bytes "- Ignored the exceeding contents, please check the output file."
      ++ 10 ∷ [] in
    (shown, if leb 2048 (length new) then more else fence)
