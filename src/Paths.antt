-- ===== src/Paths.antt =====
-- path.Join of Go's library, which the cluster client calls, on slash-separated paths.
use Prim.Native.String.{String, ◌++◌ as ◌<>◌}
use text.Mathlib.Text.{◌==◌ as str_eq, starts_with}
use gbalancer.Prelude.{Bool, ◌||◌, List, [], ◌∷◌, if◌then◌else◌}
use gbalancer.Texts.{split}

-- strings.Join with a slash
pub joined : List String → String
joined [] = ""
joined (a ∷ []) = a
joined (a ∷ b ∷ rest) = a <> ("/" <> joined (b ∷ rest))

-- one `..` of a path, after the elements `kept`, the last one first
abbrev up : Bool → List String → List String
up rooted [] = if rooted then [] else ".." ∷ []
up rooted (a ∷ kept) = if str_eq a ".." then ".." ∷ a ∷ kept else kept

clean_parts : Bool → List String → List String → List String
clean_parts rooted kept [] = kept
clean_parts rooted kept (p ∷ parts) =
    let next =
      if str_eq p "" || str_eq p "."
      then kept
      else if str_eq p ".."
      then up rooted kept
      else p ∷ kept in
    clean_parts rooted next parts

reversed : List String → List String → List String
reversed [] acc = acc
reversed (a ∷ rest) acc = reversed rest (a ∷ acc)

-- path.Clean
unfoldable pub clean_path : String → String
unfolding joined clean_parts reversed
clean_path path =
    let rooted = starts_with path "/" in
    let out =
      (if rooted then "/" else "")
      <> joined (reversed (clean_parts rooted [] (split b'/' path)) []) in
    if str_eq out "" then "." else out

-- path.Join: the empty elements in front are left out
unfoldable pub join : List String → String
unfolding clean_path
join [] = ""
join (a ∷ rest) = if str_eq a "" then join rest else clean_path (joined (a ∷ rest))
