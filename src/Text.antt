-- ===== src/Text.antt =====
-- The functions of Go's `strings` that the tag parser and the key builder call, over native texts.
-- The separators are single ASCII characters, given by their code points.
pub mod Laws
use Prim.Native.Char.{Char, code}
use Prim.Native.String.{[] as empty, ◌∷◌ as ◌◂◌}
use godynamo.Prelude.{
  ℕ, zero, suc, ◌/◌, ◌%◌, String, ◌<>◌, Bool, true, false, ◌&&◌, ◌||◌, List, [], ◌∷◌, leb, ltb,
  ◌==◌, if◌then◌else◌,
}

-- `unicode.IsSpace`
unfoldable pub is_space : ℕ → Bool
is_space c =
    (leb 0x09 c && leb c 0x0d)
    || (c == 0x20 || c == 0x85 || c == 0xa0 || c == 0x1680)
    || (leb 0x2000 c && leb c 0x200a)
    || (c == 0x2028 || c == 0x2029 || c == 0x202f || c == 0x205f || c == 0x3000)

abbrev pub is_blank : String → Bool
is_blank empty = true
is_blank (c ◂ s) = false

trim_left : String → String
unfolding is_space
trim_left empty = ""
trim_left (c ◂ s) = if is_space (code c) then trim_left s else c ◂ s

trim_right : String → String
unfolding is_space
trim_right empty = ""
trim_right (c ◂ s) =
    let rest = trim_right s in if is_space (code c) && is_blank rest then "" else c ◂ rest

-- `strings.TrimSpace`
unfoldable pub trim_space : String → String
unfolding trim_left trim_right
trim_space s = trim_right (trim_left s)

abbrev pub onto_first : Char → List String → List String
onto_first c [] = (c ◂ "") ∷ []
onto_first c (p ∷ ps) = (c ◂ p) ∷ ps

-- `strings.Split`: always at least one part.
unfoldable pub split : String → ℕ → List String
split empty sep = "" ∷ []
split (c ◂ s) sep = let rest = split s sep in if code c == sep then "" ∷ rest else onto_first c rest

-- `strings.Cut`: the text before the first separator, the text after it, and whether there is one.
unfoldable pub cut : String → ℕ → String × String × Bool
cut empty sep = ("", "", false)
cut (c ◂ s) sep =
    let rest = cut s sep in if code c == sep then ("", s, true) else (c ◂ rest.0, rest.1, rest.2)

-- `strings.Join`
unfoldable pub join : List String → String → String
join [] sep = ""
join (p ∷ []) sep = p
join (p ∷ q ∷ ps) sep = p <> (sep <> join (q ∷ ps) sep)

abbrev digit : ℕ → String
digit n =
    if n == 0
    then "0"
    else if n == 1
    then "1"
    else if n == 2
    then "2"
    else if n == 3
    then "3"
    else if n == 4
    then "4"
    else if n == 5
    then "5"
    else if n == 6
    then "6"
    else if n == 7
    then "7"
    else if n == 8
    then "8"
    else "9"

decimal_loop : ℕ → ℕ → String
decimal_loop zero n = digit n
decimal_loop (suc fuel) n =
    let tens = decimal_loop fuel (n / 10) in if ltb n 10 then digit n else tens <> digit (n % 10)

-- The verb `%d` on a number that is not negative; the fuel is at least the number of digits.
unfoldable pub decimal : ℕ → String
unfolding decimal_loop
decimal n = decimal_loop n n
