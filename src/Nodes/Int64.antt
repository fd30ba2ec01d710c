-- ===== src/Nodes/Int64.antt =====
-- A Go int of 64 bits as its bit pattern: sums and differences wrap around, the upper half of the
-- patterns are the negative numbers.
use Prim.Native.Char.{code}
use Prim.Native.String.{◌++◌ as ◌++s◌}
use containerlab.Base.{
  ℕ, zero, suc, ◌+◌, ◌-◌, ◌*◌, ◌/◌, ◌%◌, ◌^◌, ◌≤◌, ◌<◌, String, ◌≡◌, Bool, true, false, ◌&&◌,
  Option, none, some, arith, ltb, leb, ◌==◌, if◌then◌else◌, Error, Outcome, ok, fail,
}

abbrev pub add64 : ℕ → ℕ → ℕ
add64 a b = (a + b) % 2 ^ 64

abbrev pub sub64 : ℕ → ℕ → ℕ
sub64 a b = (a + (2 ^ 64 - b)) % 2 ^ 64

-- a < b, of signed numbers.
abbrev pub less64 : ℕ → ℕ → Bool
less64 a b = ltb ((a + 2 ^ 63) % 2 ^ 64) ((b + 2 ^ 63) % 2 ^ 64)

-- The value of a text of digits, behind digits of the value `acc`.
digits_value : ℕ → String → Option ℕ
digits_value acc String.[] = some acc
digits_value acc (String.◌∷◌ c s) =
    if leb b'0' (code c) && leb (code c) b'9'
    then digits_value (10 * acc + (code c - b'0')) s
    else none

-- A number with its sign, if it is in the range of an int.
in_range : Bool → Option ℕ → Outcome ℕ
in_range negative none = fail Error.not_an_integer
in_range false (some n) = if ltb n (2 ^ 63) then ok n else fail Error.not_an_integer
in_range true (some n) =
    if leb n (2 ^ 63) then ok ((2 ^ 64 - n) % 2 ^ 64) else fail Error.not_an_integer

-- strconv.Atoi
unfoldable pub atoi : String → Outcome ℕ
unfolding digits_value in_range
atoi String.[] = fail Error.not_an_integer
atoi (String.◌∷◌ c String.[]) = in_range false (digits_value 0 (String.◌∷◌ c String.[]))
atoi (String.◌∷◌ c (String.◌∷◌ d s)) =
    if code c == b'-'
    then in_range true (digits_value 0 (String.◌∷◌ d s))
    else if code c == b'+'
    then in_range false (digits_value 0 (String.◌∷◌ d s))
    else in_range false (digits_value 0 (String.◌∷◌ c (String.◌∷◌ d s)))

digit : ℕ → String
digit d =
    if d == 0
    then "0"
    else if d == 1
    then "1"
    else if d == 2
    then "2"
    else if d == 3
    then "3"
    else if d == 4
    then "4"
    else if d == 5
    then "5"
    else if d == 6
    then "6"
    else if d == 7
    then "7"
    else if d == 8
    then "8"
    else "9"

-- The digits of a number with at most `fuel` of them.
digits : ℕ → ℕ → String
unfolding digit
digits zero n = ""
digits (suc fuel) n =
    let rest = digits fuel (n / 10) in if ltb n 10 then digit n else rest ++s digit (n % 10)

-- The verb %d. A 64-bit number has at most twenty digits.
unfoldable pub decimal : ℕ → String
unfolding digits
decimal n = if ltb n (2 ^ 63) then digits 20 n else "-" ++s digits 20 (2 ^ 64 - n)

-- Without a wrap the arithmetic is the one of numbers.
pub sub64-add64 :
    (n offset first : ℕ)
    → n < 2 ^ 62
    → offset ≤ n
    → first < 2 ^ 62
    → add64 (sub64 n offset) first ≡ (n - offset) + first
sub64-add64 n offset first small above bound = omega (arith, small, above, bound)
