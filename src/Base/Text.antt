-- ===== src/Base/Text.antt =====
-- The functions of Go's `strings` and `strconv` that the webhook calls, over native texts.
pub mod Trim
pub mod Split
use Prim.Native.Nat.{ℕ, zero, suc, ◌-◌}
use Prim.Native.Char.{Char, code}
use Prim.Native.String
use Prim.Native.String.{String, [], ◌∷◌}
use mathlib.Core.Bool.{Bool, true, false, ◌||◌, ◌&&◌}
use mathlib.Core.Option.{Option, none, some}
use mathlib.Core.List.{List, [], ◌∷◌}
use text.Mathlib.Text.{◌==◌, starts_with}
use vault_secrets_webhook.Base.Tests.{ltb, leb, eqb, if◌then◌else◌, is_some}

-- `unicode.IsSpace`: the code points with the property White_Space.
abbrev pub is_space : Char → Bool
is_space c =
    (leb 9 (code c) && leb (code c) 13)
    || eqb (code c) 32
    || eqb (code c) 0x85
    || eqb (code c) 0xa0
    || eqb (code c) 0x1680
    || (leb 0x2000 (code c) && leb (code c) 0x200a)
    || eqb (code c) 0x2028
    || eqb (code c) 0x2029
    || eqb (code c) 0x202f
    || eqb (code c) 0x205f
    || eqb (code c) 0x3000

-- Drops white space at the beginning.
unfoldable pub trim_left : String → String
trim_left [] = []
trim_left (c ∷ s) = let rest = trim_left s in if is_space c then rest else c ∷ s

-- Drops white space at the end.
unfoldable pub trim_right : String → String
trim_right [] = []
trim_right (c ∷ s) = let rest = trim_right s in if is_space c && rest == "" then [] else c ∷ rest

-- `strings.TrimSpace`
unfoldable pub trim_space : String → String
unfolding trim_left trim_right
trim_space s = trim_right (trim_left s)

-- The pieces before and after each separator, the first one apart.
split_pieces : Char → String → String × List String
split_pieces sep [] = ([], [])
split_pieces sep (c ∷ s) =
    let (first, rest) = split_pieces sep s in
    if eqb (code c) (code sep) then ([], first ∷ rest) else (c ∷ first, rest)

-- `strings.Split` by a separator of one character.
unfoldable pub split : String → Char → List String
unfolding split_pieces
split s sep = let (first, rest) = split_pieces sep s in first ∷ rest

-- `strings.Join`
unfoldable pub join : List String → String → String
join [] sep = ""
join (x ∷ xs) sep = elim xs [ [] ↦ x | _ ∷ _ ↦ String.◌++◌ x (String.◌++◌ sep (join xs sep)) ]

-- `strings.ReplaceAll` of a text that is not empty; `skip` characters of an occurrence are left.
replace_from : String → String → ℕ → String → String
replace_from old new skip [] = []
replace_from old new (suc skip) (c ∷ s) = replace_from old new skip s
replace_from old new zero (c ∷ s) = elim (starts_with (c ∷ s) old) [
  | true ↦ String.◌++◌ new (replace_from old new (String.count old - 1) s)
  | false ↦ c ∷ replace_from old new zero s
]

-- `strings.ReplaceAll` of the empty text: before each character, and at the end.
interleave : String → String → String
interleave new [] = new
interleave new (c ∷ s) = String.◌++◌ new (c ∷ interleave new s)

-- `strings.ReplaceAll`
unfoldable pub replace_all : String → String → String → String
unfolding replace_from interleave
replace_all s old new = if old == "" then interleave new s else replace_from old new zero s

-- `strings.Contains`
unfoldable pub contains : String → String → Bool
contains [] t = t == ""
contains (c ∷ s) t = starts_with (c ∷ s) t || contains s t

-- `strings.TrimSuffix` by one character.
unfoldable pub trim_suffix : String → Char → String
trim_suffix [] sep = []
trim_suffix (c ∷ s) sep =
    let rest = trim_suffix s sep in if s == "" && eqb (code c) (code sep) then [] else c ∷ rest

-- `strconv.ParseBool`; the callers drop the error, with which the value is false.
unfoldable pub parse_bool : String → Bool
parse_bool s = s == "1" || s == "t" || s == "T" || s == "TRUE" || s == "true" || s == "True"

-- `strconv.FormatBool`
abbrev pub format_bool : Bool → String
format_bool true = "true"
format_bool false = "false"

-- `unicode.ToLower` at an ASCII letter.
abbrev pub lower_ascii : Char → Char
lower_ascii c =
    if leb 65 (code c) && leb (code c) 90
    then String.char_at "abcdefghijklmnopqrstuvwxyz" (code c - 65)
    else c
