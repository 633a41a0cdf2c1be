-- ===== src/Texts.antt =====
-- Lists of texts: membership tests, and strings.Split on a one-character separator.
use Prim.Native.String.{String}
use Prim.Native.Char.{Char, code}
use text.Mathlib.Text.{◌==◌ as str_eq}
use gbalancer.Prelude.{ℕ, ◌+◌, Bool, true, false, ◌&&◌, ◌||◌, List, [], ◌∷◌, ◌==◌, if◌then◌else◌}

abbrev pub occurs : String → List String → Bool
occurs a [] = false
occurs a (x ∷ xs) = str_eq x a || occurs a xs

-- how often a text stands in a list
abbrev pub hit : String → String → ℕ
hit a x = if str_eq x a then 1 else 0

abbrev pub tally : String → List String → ℕ
tally a [] = 0
tally a (x ∷ xs) = hit a x + tally a xs

-- a character put in front of the first part
abbrev pub extend : Char → List String → List String
extend c [] = String.◌∷◌ c String.[] ∷ []
extend c (p ∷ ps) = String.◌∷◌ c p ∷ ps

-- strings.Split: there is one part more than there are separators
unfoldable pub split : ℕ → String → List String
split sep String.[] = String.[] ∷ []
split sep (String.◌∷◌ c s) =
    if code c == sep then String.[] ∷ split sep s else extend c (split sep s)

abbrev pub words_of : List String → List String
words_of [] = []
words_of (w ∷ ws) = if str_eq w "" then words_of ws else w ∷ words_of ws

-- strings.Fields of a line whose only white space is blanks
unfoldable pub fields : String → List String
unfolding split
fields line = words_of (split b' ' line)

-- a text that is walked byte by byte
abbrev pub Text : Type 0
Text = List ℕ

-- the bytes of an ASCII literal
abbrev pub bytes : String → Text
bytes String.[] = []
bytes (String.◌∷◌ c s) = code c ∷ bytes s

abbrev pub same : Text → Text → Bool
same [] [] = true
same (a ∷ rest) (b ∷ bs) = a == b && same rest bs
same _ _ = false
