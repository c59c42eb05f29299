-- ===== src/Text.antt =====
-- Texts as the lists of their character codes: decimal numerals as `String(n)` prints them and as
-- the expression `^(0|[1-9][0-9]*)$` with `Number` reads them, `split` and `join`.
pub mod Decimals
pub mod Pieces
pub mod Equality
use Prim.Native.Char.{code}
use Prim.Native.String.{String}
use fault_affinity.Prelude.{
  ℕ, zero, suc, ◌+◌, ◌-◌, ◌*◌, ◌/◌, ◌%◌, Bool, true, false, List, [], ◌∷◌, ◌++◌, Option, none, some,
  every, length, ltb, leb, ◌==◌, if◌then◌else◌, not, ◌&&◌, ◌||◌,
}

abbrev pub Text : Type 0
Text = List ℕ

pub emit : ℕ → ℕ → Text → Text
emit zero n out = out
emit (suc fuel) n out =
    let more = emit fuel (n / 10) ((b'0' + n % 10) ∷ out) in
    if ltb n 10 then (b'0' + n) ∷ out else more

-- `String(n)`; a digit a round, so `n + 1` rounds are enough.
unfoldable pub decimal : ℕ → Text
unfolding emit
decimal n = emit (n + 1) n []

abbrev pub is_digit : ℕ → Bool
is_digit c = leb b'0' c && leb c b'9'

-- `^(0|[1-9][0-9]*)$`
abbrev pub is_canonical : Text → Bool
is_canonical [] = false
is_canonical (c ∷ []) = is_digit c
is_canonical (c ∷ d ∷ rest) = leb b'1' c && (leb c b'9' && every is_digit (d ∷ rest))

abbrev pub number_from : ℕ → Text → ℕ
number_from value [] = value
number_from value (c ∷ rest) = number_from (value * 10 + (c - b'0')) rest

unfoldable pub parse_decimal : Text → Option ℕ
parse_decimal text = if is_canonical text then some (number_from 0 text) else none

-- What `split` makes of one more character before the pieces of the rest.
abbrev pub add_char : ℕ → List Text → List Text
add_char c [] = (c ∷ []) ∷ []
add_char c (piece ∷ pieces) = (c ∷ piece) ∷ pieces

abbrev pub split : ℕ → Text → List Text
split separator [] = [] ∷ []
split separator (c ∷ rest) =
    let pieces = split separator rest in if c == separator then [] ∷ pieces else add_char c pieces

abbrev pub join : ℕ → List Text → Text
join separator [] = []
join separator (piece ∷ []) = piece
join separator (piece ∷ next ∷ pieces) = piece ++ (separator ∷ join separator (next ∷ pieces))

-- `===` on strings.
abbrev pub text_eq : Text → Text → Bool
text_eq [] [] = true
text_eq [] (d ∷ right) = false
text_eq (c ∷ left) [] = false
text_eq (c ∷ left) (d ∷ right) = c == d && text_eq left right

-- `[a-f0-9]`, `[A-Z]`, and the rest of `[A-Z0-9_]`.
abbrev pub is_hex : ℕ → Bool
is_hex c = is_digit c || (leb b'a' c && leb c b'f')

abbrev pub is_upper : ℕ → Bool
is_upper c = leb b'A' c && leb c b'Z'

-- `^[a-f0-9]{n}$`
abbrev pub is_hex_of : ℕ → Text → Bool
is_hex_of n text = length text == n && every is_hex text

-- `^[A-Z][A-Z0-9_]{0,63}$`
abbrev pub is_error_code : Text → Bool
is_error_code [] = false
is_error_code (c ∷ rest) =
    is_upper c
    && (leb (length rest) 63 && every (λ d. is_upper d || (is_digit d || d == b'_')) rest)

-- The codes of a literal.
abbrev pub codes : String → Text
codes String.[] = []
codes (String.◌∷◌ c rest) = code c ∷ codes rest

abbrev pub replicate_char : ℕ → ℕ → Text
replicate_char zero c = []
replicate_char (suc n) c = c ∷ replicate_char n c

-- `text.padStart(width, c)`
abbrev pub pad_start : ℕ → ℕ → Text → Text
pad_start width c text = replicate_char (width - length text) c ++ text

-- `path.isAbsolute(text) && !text.includes("\0")` on Linux.
abbrev pub is_absolute_path : Text → Bool
is_absolute_path [] = false
is_absolute_path (c ∷ rest) = c == b'/' && every (λ d. not (d == 0)) rest
