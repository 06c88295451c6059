-- ===== src/Base/Strings.antt =====
-- Text as a list of character codes, with what the program uses of JavaScript's strings: decimal
-- printing, `padStart`, `split` at one character, and `Number` of a run of decimal digits.
use Prim.Native.Nat.{ℕ, zero, suc, ◌+◌, ◌-◌, ◌*◌, ◌/◌, ◌%◌, ◌<◌}
use Prim.Native.Char.{code}
use Prim.Native.String.{String}
use mathlib.Core.Path.{◌≡◌, refl}
use mathlib.Core.Logic.{inl, inr}
use mathlib.Core.Bool.{Bool, true, false, ◌&&◌, ◌||◌}
use mathlib.Core.Option.{Option, none, some}
use mathlib.Core.List.{List, [], ◌∷◌, ◌++◌}
use native.Mathlib.Omega.{arith}
use text.Mathlib.Text.{◌==◌ as str_eq}
use gbc_smart_management.Base.Tests.{ltb, leb, ◌==◌, if◌then◌else◌, Bool-cases, lt→ltb}
use gbc_smart_management.Base.Lists.{length, replicate}

abbrev pub Text : Type 0
Text = List ℕ

-- The codes of a literal.
abbrev pub codes : String → Text
codes String.[] = []
codes (String.◌∷◌ c s) = code c ∷ codes s

-- `String(n)`: the fuel is one more than the number, and each round divides it by ten.
digits_fuel : ℕ → ℕ → Text
digits_fuel zero n = []
digits_fuel (suc f) n =
    let rest = digits_fuel f (n / 10) in
    if ltb n 10 then (48 + n) ∷ [] else rest ++ (48 + n % 10) ∷ []

unfoldable pub decimal : ℕ → Text
unfolding digits_fuel
decimal n = digits_fuel (suc n) n

-- `s.padStart(width, c)`
unfoldable pub pad_start : ℕ → ℕ → Text → Text
pad_start width c s = replicate (width - length s) c ++ s

-- `String(n).padStart(2, '0')`
unfoldable pub two_digits : ℕ → Text
unfolding decimal pad_start
two_digits n = pad_start 2 b'0' (decimal n)

is_digit : ℕ → Bool
is_digit c = leb b'0' c && leb c b'9'

-- The value of a run of digits behind `acc`; `none` is NaN.
unfoldable pub number_from : ℕ → Text → Option ℕ
unfolding is_digit
number_from acc [] = some acc
number_from acc (c ∷ cs) =
    let rest = number_from (acc * 10 + (c - b'0')) cs in if is_digit c then rest else none

-- `Number(s)` on decimal digits; `Number('')` is 0.
unfoldable pub number : Text → Option ℕ
unfolding number_from
number s = number_from 0 s

push_front : ℕ → List Text → List Text
push_front c [] = (c ∷ []) ∷ []
push_front c (w ∷ ws) = (c ∷ w) ∷ ws

-- `s.split(sep)`
unfoldable pub split : ℕ → Text → List Text
unfolding push_front
split sep [] = [] ∷ []
split sep (c ∷ cs) = if c == sep then [] ∷ split sep cs else push_front c (split sep cs)

abbrev pub is_empty : Text → Bool
is_empty [] = true
is_empty (c ∷ cs) = false

leading_digits : Text → Text
unfolding is_digit
leading_digits [] = []
leading_digits (c ∷ cs) = if is_digit c then c ∷ leading_digits cs else []

-- `parseInt(s, 10)` of a text with no sign and no space before its digits.
unfoldable pub parse_int : Text → Option ℕ
unfolding leading_digits number
parse_int s = if is_empty (leading_digits s) then none else number (leading_digits s)

abbrev pub first_or_empty : List Text → Text
first_or_empty [] = []
first_or_empty (w ∷ ws) = w

-- The characters that `trim` removes: white space and line terminators.
unfoldable pub is_space : ℕ → Bool
is_space c =
    (leb 9 c && leb c 13)
    || c == 32
    || c == 160
    || c == 0x1680
    || (leb 0x2000 c && leb c 0x200a)
    || c == 0x2028
    || c == 0x2029
    || c == 0x202f
    || c == 0x205f
    || c == 0x3000
    || c == 0xfeff

-- `!s.trim()`
unfoldable pub is_blank : Text → Bool
unfolding is_space
is_blank [] = true
is_blank (c ∷ cs) = is_space c && is_blank cs

-- `text || fallback`, of a text that may be missing.
unfoldable pub text_or : Option String → String → String
text_or none fallback = fallback
text_or (some s) fallback = if str_eq s "" then fallback else s

-- A number below 100 has two digits, its tens and its ones.
pub two_digits_lem : (n : ℕ) → n < 100 → two_digits n ≡ (48 + n / 10) ∷ (48 + n % 10) ∷ []
unfolding two_digits
two_digits_lem zero h = refl
two_digits_lem (suc k) h = elim (Bool-cases (ltb (suc k) 10)) [
  | inl short ↦ rw (short, two_digits) (ground arith)
  | inr long ↦ rw (long, two_digits) (rw (lt→ltb (suc k / 10) 10 (omega arith)) (ground arith))
]

pub number-two_digits : (n : ℕ) → n < 100 → number (two_digits n) ≡ some n
unfolding number
number-two_digits n h = rw (two_digits_lem n h) (ground arith)

pub parse_int-two_digits : (n : ℕ) → n < 100 → parse_int (two_digits n) ≡ some n
unfolding parse_int leading_digits number number_from is_digit
parse_int-two_digits n h = rw (two_digits_lem n h) (ground arith)
