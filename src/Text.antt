-- ===== src/Text.antt =====
-- What the program takes from Go's `strings` package, on lists of code points.
use Prim.Native.Char.{code}
use codex_auto_retry.Prelude.{
  ℕ, ◌+◌, String, Bool, true, false, ◌&&◌, ◌||◌, List, [], ◌∷◌, leb, eqb, if◌then◌else◌,
}

abbrev pub Text : Type 0
Text = List ℕ

abbrev pub codes : String → Text
codes String.[] = []
codes (String.◌∷◌ c s) = code c ∷ codes s

-- `unicode.IsSpace`
unfoldable pub is_space : ℕ → Bool
is_space c =
    (leb 9 c && leb c 13)
    || eqb c 32
    || eqb c 0x85
    || eqb c 0xa0
    || eqb c 0x1680
    || (leb 0x2000 c && leb c 0x200a)
    || eqb c 0x2028
    || eqb c 0x2029
    || eqb c 0x202f
    || eqb c 0x205f
    || eqb c 0x3000

unfoldable pub trim_left : Text → Text
trim_left [] = []
trim_left (c ∷ t) = if is_space c then trim_left t else c ∷ t

unfoldable pub trim_right : Text → Text
trim_right [] = []
trim_right (c ∷ t) = elim (trim_right t) [
  | [] ↦ if is_space c then [] else c ∷ []
  | d ∷ r ↦ c ∷ d ∷ r
]

-- `strings.TrimSpace`
unfoldable pub trim_space : Text → Text
unfolding trim_left trim_right is_space
trim_space t = trim_right (trim_left t)

abbrev pub is_empty : Text → Bool
is_empty [] = true
is_empty (_ ∷ _) = false

-- `strings.TrimSpace(s) == ""`
unfoldable pub is_blank : String → Bool
unfolding trim_space
is_blank s = is_empty (trim_space (codes s))

-- `strings.ToLower`. Of the letters outside ASCII only these two have a lower case inside it, and
-- every later test on the text looks for ASCII.
unfoldable pub to_lower_rune : ℕ → ℕ
to_lower_rune c =
    if leb b'A' c && leb c b'Z'
    then c + 32
    else if eqb c 0x130
    then b'i'
    else if eqb c 0x212a
    then b'k'
    else c

unfoldable pub to_lower : Text → Text
unfolding to_lower_rune
to_lower [] = []
to_lower (c ∷ t) = to_lower_rune c ∷ to_lower t

-- `strings.HasPrefix(text, prefix)`
unfoldable pub has_prefix : Text → Text → Bool
has_prefix t [] = true
has_prefix [] (p ∷ ps) = false
has_prefix (c ∷ t) (p ∷ ps) = eqb c p && has_prefix t ps

-- `strings.Contains(text, part)`
unfoldable pub contains : Text → Text → Bool
unfolding has_prefix
contains [] part = is_empty part
contains (c ∷ t) part = has_prefix (c ∷ t) part || contains t part
