-- ===== src/Text.antt =====
-- Texts as lists of code points, with the operations of Rust's `str` that the program calls.
pub mod Laws
use dotdns.Prelude.{
  zero, suc, ◌+◌, ◌-◌, ◌*◌, ◌/◌, ◌%◌, ◌++◌, length, replicate, ℕ, Bool, true, false, not, ◌&&◌,
  ◌||◌, List, [], ◌∷◌, Option, none, some, leb, ◌==◌, if◌then◌else◌,
}
use Prim.Native.Char.{code}
use Prim.Native.String.{String}

abbrev pub Text : Type 0
Text = List ℕ

-- A literal of the source.
abbrev pub codes : String → Text
codes String.[] = []
codes (String.◌∷◌ c s) = code c ∷ codes s

unfoldable pub eq_text : Text → Text → Bool
eq_text [] [] = true
eq_text [] (d ∷ t) = false
eq_text (c ∷ s) [] = false
eq_text (c ∷ s) (d ∷ t) = c == d && eq_text s t

-- `char::is_whitespace`: the code points of the Unicode property White_Space.
unfoldable pub is_whitespace : ℕ → Bool
is_whitespace c =
    (leb 9 c && leb c 13)
    || c == 32
    || c == 0x85
    || c == 0xA0
    || c == 0x1680
    || (leb 0x2000 c && leb c 0x200A)
    || c == 0x2028
    || c == 0x2029
    || c == 0x202F
    || c == 0x205F
    || c == 0x3000

unfoldable pub is_empty : Text → Bool
is_empty [] = true
is_empty (c ∷ s) = false

-- `s.starts_with(p)`
unfoldable pub starts_with : Text → Text → Bool
starts_with s [] = true
starts_with [] (d ∷ p) = false
starts_with (c ∷ s) (d ∷ p) = c == d && starts_with s p

-- `s.contains(p)` for a text `p`
unfoldable pub contains_text : Text → Text → Bool
contains_text [] p = starts_with [] p
contains_text (c ∷ s) p = starts_with (c ∷ s) p || contains_text s p

-- `s.contains(c)` for a character
unfoldable pub contains_char : Text → ℕ → Bool
contains_char [] d = false
contains_char (c ∷ s) d = c == d || contains_char s d

-- `s.trim_start()`
unfoldable pub trim_start : Text → Text
trim_start [] = []
trim_start (c ∷ s) = if is_whitespace c then trim_start s else c ∷ s

-- `s.trim_end()`
unfoldable pub trim_end : Text → Text
trim_end [] = []
trim_end (c ∷ s) = let t = trim_end s in if is_whitespace c && is_empty t then [] else c ∷ t

-- `s.trim_end_matches(c)`
unfoldable pub trim_end_char : Text → ℕ → Text
trim_end_char [] d = []
trim_end_char (c ∷ s) d = let t = trim_end_char s d in if c == d && is_empty t then [] else c ∷ t

unfoldable pub trim : Text → Text
trim s = trim_end (trim_start s)

-- `s.split(c).next()`: what stands before the first `c`
unfoldable pub before_char : Text → ℕ → Text
before_char [] d = []
before_char (c ∷ s) d = if c == d then [] else c ∷ before_char s d

-- `s.rsplit_once(c)`
unfoldable pub rsplit_once : Text → ℕ → Option (Text × Text)
rsplit_once [] d = none
rsplit_once (c ∷ s) d = elim (rsplit_once s d) [
  | some (before, after) ↦ some (c ∷ before, after)
  | none ↦ if c == d then some ([], s) else none
]

-- `s.ends_with(c)`
unfoldable pub ends_with_char : Text → ℕ → Bool
ends_with_char [] d = false
ends_with_char (c ∷ []) d = c == d
ends_with_char (c ∷ c' ∷ s) d = ends_with_char (c' ∷ s) d

-- `&s[..s.len() - 1]`, of a text whose last character is one byte long
unfoldable pub drop_last : Text → Text
drop_last [] = []
drop_last (c ∷ []) = []
drop_last (c ∷ c' ∷ s) = c ∷ drop_last (c' ∷ s)

-- `&s[2..]`, of a text that begins with two characters of one byte
unfoldable pub drop_two : Text → Text
drop_two (c ∷ d ∷ s) = s
drop_two s = []

-- `s.chars().all(|c| !c.is_whitespace())`
unfoldable pub no_whitespace : Text → Bool
no_whitespace [] = true
no_whitespace (c ∷ s) = not (is_whitespace c) && no_whitespace s

cons_first : ℕ → List Text → List Text
cons_first c [] = (c ∷ []) ∷ []
cons_first c (w ∷ ws) = (c ∷ w) ∷ ws

-- A character in front of a text whose words are known: it joins the first word or is one.
attach : ℕ → Text → List Text → List Text
attach c [] ws = (c ∷ []) ∷ ws
attach c (d ∷ s) ws = if is_whitespace d then (c ∷ []) ∷ ws else cons_first c ws

-- `s.split_whitespace().collect()`
unfoldable pub split_whitespace : Text → List Text
unfolding attach cons_first
split_whitespace [] = []
split_whitespace (c ∷ s) =
    let ws = split_whitespace s in if is_whitespace c then ws else attach c s ws

digit_loop : ℕ → ℕ → Text → Text
digit_loop zero n acc = acc
digit_loop (suc fuel) n acc =
    let rest = digit_loop fuel (n / 10) ((b'0' + n % 10) ∷ acc) in if n == 0 then acc else rest

digits_u16 : ℕ → Text → Option ℕ
digits_u16 n [] = some n
digits_u16 n (c ∷ s) =
    let value = n * 10 + (c - b'0') in
    let rest = digits_u16 value s in
    if leb b'0' c && leb c b'9' && leb value 65535 then rest else none

some_digits_u16 : Text → Option ℕ
some_digits_u16 [] = none
some_digits_u16 (c ∷ s) = digits_u16 0 (c ∷ s)

-- `s.parse::<u16>().ok()`
unfoldable pub parse_u16 : Text → Option ℕ
unfolding some_digits_u16 digits_u16
parse_u16 [] = none
parse_u16 (c ∷ s) = if c == b'+' then some_digits_u16 s else some_digits_u16 (c ∷ s)

-- `format!("{n:0width$}")`; a number has at most as many digits as itself, and one more round ends
-- the loop.
unfoldable pub padded : ℕ → ℕ → Text
unfolding digit_loop
padded width n =
    let digits = if n == 0 then codes "0" else digit_loop (n + 1) n [] in
    replicate (width - length digits) b'0' ++ digits

-- `format!("{n}")`
abbrev pub decimal : ℕ → Text
decimal n = padded 0 n

-- `format!("{s:width$}")` and `format!("{s:>width$}")`
unfoldable pub left_aligned : ℕ → Text → Text
left_aligned width s = s ++ replicate (width - length s) b' '

unfoldable pub right_aligned : ℕ → Text → Text
right_aligned width s = replicate (width - length s) b' ' ++ s

-- `parts.join(separator)`
unfoldable pub join : Text → List Text → Text
join separator [] = []
join separator (part ∷ []) = part
join separator (part ∷ next ∷ parts) = part ++ (separator ++ join separator (next ∷ parts))

-- `dir.join(name)` for a relative name
unfoldable pub join_path : Text → Text → Text
join_path dir name =
    if is_empty dir
    then name
    else if ends_with_char dir b'/'
    then dir ++ name
    else dir ++ b'/' ∷ name

-- A file name without its extension: what begins with its only dot has none.
file_stem : Text → Text
file_stem name = elim (rsplit_once name b'.') [
  | none ↦ name
  | some ([], extension) ↦ name
  | some (c ∷ stem, extension) ↦ c ∷ stem
]

unfoldable pub without_extension : Text → Text
unfolding file_stem
without_extension path = elim (rsplit_once path b'/') [
  | none ↦ file_stem path
  | some (dir, name) ↦ dir ++ b'/' ∷ file_stem name
]

-- `path.with_extension(extension)` for a path that ends in a file name.
unfoldable pub with_extension : Text → Text → Text
unfolding without_extension
with_extension extension path = without_extension path ++ (b'.' ∷ extension)

-- `path.parent()` for a path that ends in a file name
unfoldable pub parent : Text → Option Text
parent [] = none
parent (c ∷ s) = elim (rsplit_once (c ∷ s) b'/') [
  | none ↦ some []
  | some ([], name) ↦ some (b'/' ∷ [])
  | some (d ∷ dir, name) ↦ some (d ∷ dir)
]
