-- ===== src/Python/Decimal.antt =====
-- `str` and `int` between whole numbers and texts.
use Prim.Native.Char.{code}
use staykey_ha_plugin.Prelude.{
  ℕ, zero, suc, ◌+◌, ◌*◌, ◌-◌, ◌/◌, ◌%◌, String, ◌&&◌, Option, none, some, eqb, leb, if◌then◌else◌,
}
use staykey_ha_plugin.Python.Int.{ℤ, pos, negsuc}
use staykey_ha_plugin.Python.Exec.{◌<>◌}

abbrev digit_text : ℕ → String
digit_text n =
    if eqb n 0
    then "0"
    else if eqb n 1
    then "1"
    else if eqb n 2
    then "2"
    else if eqb n 3
    then "3"
    else if eqb n 4
    then "4"
    else if eqb n 5
    then "5"
    else if eqb n 6
    then "6"
    else if eqb n 7
    then "7"
    else if eqb n 8
    then "8"
    else "9"

-- The first argument is as large as the number, so it has at least as many digits.
unfoldable pub decimal_on : ℕ → ℕ → String → String
decimal_on zero n rest = rest
decimal_on (suc k) n rest =
    let more = decimal_on k (n / 10) (digit_text (n % 10) <> rest) in
    if leb 10 n then more else digit_text n <> rest

-- `str(n)`
unfoldable pub decimal : ℕ → String
unfolding decimal_on
decimal n = decimal_on (suc n) n ""

unfoldable pub str_of : ℤ → String
unfolding decimal
str_of (pos n) = decimal n
str_of (negsuc n) = "-" <> decimal (suc n)

-- The digits of a text, after those read so far.
unfoldable pub digits_on : ℕ → String → Option ℕ
digits_on n String.[] = some n
digits_on n (String.◌∷◌ c s) =
    let rest = digits_on (n * 10 + (code c - 48)) s in
    if leb 48 (code c) && leb (code c) 57 then rest else none

abbrev digits : String → Option ℕ
digits String.[] = none
digits (String.◌∷◌ c s) = digits_on 0 (String.◌∷◌ c s)

abbrev negated : ℕ → ℤ
negated zero = pos zero
negated (suc n) = negsuc n

-- `int(s)`, for a text without blanks and underscores: none where it raises
unfoldable pub int_of : String → Option ℤ
unfolding digits_on
int_of String.[] = none
int_of (String.◌∷◌ c s) =
    if eqb (code c) 45
    then elim (digits s) [ none ↦ none | some n ↦ some (negated n) ]
    else if eqb (code c) 43
    then elim (digits s) [ none ↦ none | some n ↦ some (pos n) ]
    else elim (digits (String.◌∷◌ c s)) [ none ↦ none | some n ↦ some (pos n) ]
