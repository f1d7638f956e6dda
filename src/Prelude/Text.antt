-- ===== src/Prelude/Text.antt =====
-- What the programs use of Go's package strings, on ASCII texts. A text is read byte by byte as the
-- list of its codes.
use Prim.Native.Nat.{ℕ, zero, suc, ◌-◌}
use mathlib.Core.Option.{Option, none, some}
use runfabric.Prelude.Lists.{get_elem?, length}
use Prim.Native.Char.{Char, code}
use Prim.Native.String.{String}
use mathlib.Core.Bool.{Bool, true, false, ◌&&◌, ◌||◌}
use mathlib.Core.List.{List, [], ◌∷◌}
use runfabric.Prelude.Tests.{leb, ◌==◌, ◌=?=◌, ◌<>◌, if◌then◌else◌}

abbrev pub codes : String → List ℕ
codes String.[] = []
codes (String.◌∷◌ c s) = code c ∷ codes s

abbrev is_space : Char → Bool
is_space c = code c == 32 || (leb 9 (code c) && leb (code c) 13)

unfoldable pub trim_left : String → String
trim_left String.[] = ""
trim_left (String.◌∷◌ c s) = if is_space c then trim_left s else String.◌∷◌ c s

unfoldable pub trim_right : String → String
trim_right String.[] = ""
trim_right (String.◌∷◌ c s) =
    let rest = trim_right s in if is_space c && rest =?= "" then "" else String.◌∷◌ c rest

-- strings.TrimSpace
unfoldable pub trim_space : String → String
unfolding trim_left trim_right
trim_space s = trim_left (trim_right s)

abbrev starts_with : List ℕ → List ℕ → Bool
starts_with [] s = true
starts_with (c ∷ p) [] = false
starts_with (c ∷ p) (d ∷ s) = c == d && starts_with p s

abbrev occurs : List ℕ → List ℕ → Bool
occurs p [] = starts_with p []
occurs p (d ∷ s) = starts_with p (d ∷ s) || occurs p s

-- strings.Contains
unfoldable pub contains_text : String → String → Bool
contains_text s part = occurs (codes part) (codes s)

abbrev lower_letters : List Char
lower_letters =
    "a" ∷ "b" ∷ "c" ∷ "d" ∷ "e" ∷ "f" ∷ "g" ∷ "h" ∷ "i" ∷ "j" ∷ "k" ∷ "l" ∷ "m" ∷ "n" ∷ "o" ∷ "p"
    ∷ "q" ∷ "r" ∷ "s" ∷ "t" ∷ "u" ∷ "v" ∷ "w" ∷ "x" ∷ "y" ∷ "z" ∷ []

abbrev lower_char : Char → Char
lower_char c =
    if leb 65 (code c)
    then (elim (get_elem? {A = Char} lower_letters (code c - 65)) [ some l ↦ l | none ↦ c ])
    else c

-- strings.ToLower
unfoldable pub to_lower : String → String
to_lower String.[] = ""
to_lower (String.◌∷◌ c s) = String.◌∷◌ (lower_char c) (to_lower s)

-- strings.HasPrefix
unfoldable pub has_prefix : String → String → Bool
has_prefix s prefix = starts_with (codes prefix) (codes s)

-- The text from the byte `n` on.
unfoldable pub drop_text : ℕ → String → String
drop_text zero s = s
drop_text (suc n) String.[] = ""
drop_text (suc n) (String.◌∷◌ c s) = drop_text n s

-- What stands before the first occurrence of `part`, if there is one.
unfoldable pub before : List ℕ → String → Option String
before part String.[] = if starts_with part [] then some "" else none
before part (String.◌∷◌ c s) =
    let rest = before part s in
    if starts_with part (codes (String.◌∷◌ c s))
    then some ""
    else elim rest [ none ↦ none | some t ↦ some (String.◌∷◌ c t) ]

-- strings.TrimSuffix
unfoldable pub trim_suffix : String → String → String
trim_suffix suffix String.[] = ""
trim_suffix suffix (String.◌∷◌ c s) =
    let rest = trim_suffix suffix s in if String.◌∷◌ c s =?= suffix then "" else String.◌∷◌ c rest

-- `s[:i]` for the index `i` of the byte `sep`, or `s` if it is not there.
unfoldable pub cut_at : ℕ → String → String
cut_at sep String.[] = ""
cut_at sep (String.◌∷◌ c s) = if code c == sep then "" else String.◌∷◌ c (cut_at sep s)

abbrev pub put_first : Char → List String → List String
put_first c [] = String.◌∷◌ c "" ∷ []
put_first c (part ∷ rest) = String.◌∷◌ c part ∷ rest

-- strings.Split at one byte
unfoldable pub split : ℕ → String → List String
split sep String.[] = "" ∷ []
split sep (String.◌∷◌ c s) =
    let rest = split sep s in if code c == sep then "" ∷ rest else put_first c rest

-- strings.EqualFold
unfoldable pub equal_fold : String → String → Bool
unfolding to_lower
equal_fold s t = to_lower s =?= to_lower t

-- strings.ReplaceAll; `skip` bytes of an occurrence are still to be passed over.
unfoldable pub replace_from : ℕ → String → String → String → String
replace_from skip old new String.[] = ""
replace_from (suc skip) old new (String.◌∷◌ c s) = replace_from skip old new s
replace_from zero old new (String.◌∷◌ c s) =
    if starts_with (codes old) (codes (String.◌∷◌ c s))
    then new <> replace_from (length (codes old) - 1) old new s
    else String.◌∷◌ c (replace_from zero old new s)
