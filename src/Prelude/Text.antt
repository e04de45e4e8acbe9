-- ===== src/Prelude/Text.antt =====
-- What the server takes from Go's package strings. A text is a sequence of code points; lengths
-- are in bytes of UTF-8, as in Go.
use Prim.Native.Nat.{ℕ}
use Prim.Native.Char.{Char, code}
use Prim.Native.String.{String}
use mathlib.Core.Bool.{Bool, true, false, ◌||◌, ◌&&◌}
use mathlib.Core.Option.{Option, none, some}
use mathlib.Core.List.{List, [], ◌∷◌}
use text.Mathlib.Text.{◌==◌}
use verstak_sync_server.Prelude.Tests.{leb, eqb, if◌then◌else◌}

abbrev pub codes : String → List ℕ
codes String.[] = []
codes (String.◌∷◌ c s) = code c ∷ codes s

-- unicode.IsSpace
unfoldable pub is_space : ℕ → Bool
is_space c =
    (leb 9 c && leb c 13)
    || eqb c 32
    || eqb c 0x85
    || eqb c 0xa0
    || eqb c 0x1680
    || (leb 0x2000 c && leb c 0x200a)
    || eqb c 0x2028
    || eqb c 0x2029
    || eqb c 0x202f
    || eqb c 0x205f
    || eqb c 0x3000

unfoldable pub trim_left : String → String
unfolding is_space
trim_left String.[] = String.[]
trim_left (String.◌∷◌ c s) = if is_space (code c) then trim_left s else String.◌∷◌ c s

-- A space is dropped where nothing but spaces follows.
unfoldable pub trim_right : String → String
unfolding is_space
trim_right String.[] = String.[]
trim_right (String.◌∷◌ c s) = keep_or_drop c (trim_right s)
  where
    keep_or_drop : Char → String → String
    keep_or_drop d String.[] = if is_space (code d) then String.[] else String.◌∷◌ d String.[]
    keep_or_drop d (String.◌∷◌ e r) = String.◌∷◌ d (String.◌∷◌ e r)

-- strings.TrimSpace
unfoldable pub trim_space : String → String
unfolding trim_left trim_right
trim_space s = trim_right (trim_left s)

-- What follows a prefix, if it is one.
unfoldable pub strip? : String → String → Option String
strip? String.[] s = some s
strip? (String.◌∷◌ c p) String.[] = none
strip? (String.◌∷◌ c p) (String.◌∷◌ d s) = if eqb (code c) (code d) then strip? p s else none

-- strings.TrimPrefix
unfoldable pub trim_prefix : String → String → String
unfolding strip?
trim_prefix s p = elim (strip? p s) [ none ↦ s | some rest ↦ rest ]

-- strings.HasPrefix
unfoldable pub has_prefix : String → String → Bool
unfolding strip?
has_prefix s p = elim (strip? p s) [ none ↦ false | some rest ↦ true ]

-- strings.Split with a separator of one code point, which gives at least one part.
unfoldable pub split : ℕ → String → List String
split sep String.[] = String.[] ∷ []
split sep (String.◌∷◌ c s) =
    if eqb (code c) sep then String.[] ∷ split sep s else on_first c (split sep s)
  where
    on_first : Char → List String → List String
    on_first d [] = String.◌∷◌ d String.[] ∷ []
    on_first d (p ∷ ps) = String.◌∷◌ d p ∷ ps

-- strings.TrimSuffix, where `suffix` ends a text once at most.
unfoldable pub trim_suffix : String → String → String
trim_suffix String.[] suffix = String.[]
trim_suffix (String.◌∷◌ c s) suffix =
    if String.◌∷◌ c s == suffix then String.[] else String.◌∷◌ c (trim_suffix s suffix)

-- strings.HasSuffix
unfoldable pub has_suffix : String → String → Bool
has_suffix String.[] suffix = suffix == String.[]
has_suffix (String.◌∷◌ c s) suffix = (String.◌∷◌ c s == suffix) || has_suffix s suffix

-- strings.Contains
unfoldable pub contains : String → String → Bool
unfolding has_prefix
contains String.[] part = has_prefix String.[] part
contains (String.◌∷◌ c s) part = has_prefix (String.◌∷◌ c s) part || contains s part

-- strings.TrimRight with a set of one code point.
unfoldable pub trim_right_of : ℕ → String → String
trim_right_of cut String.[] = String.[]
trim_right_of cut (String.◌∷◌ c s) = keep_or_drop c (trim_right_of cut s)
  where
    keep_or_drop : Char → String → String
    keep_or_drop d String.[] = if eqb (code d) cut then String.[] else String.◌∷◌ d String.[]
    keep_or_drop d rest = String.◌∷◌ d rest
