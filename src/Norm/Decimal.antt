-- ===== src/Norm/Decimal.antt =====
-- The standard library's decimal numerals, as far as the program uses them: `strconv.FormatInt`,
-- the verbs `%d` and `%0*d` of fmt, and `strconv.ParseInt` in base 10.
use tickstore.Prelude.{
  Bool, Bytes, Option, [], bytes_eq, false, if◌then◌else◌, int_eq, length, ltb, max_i64, nat_eq,
  negsuc, none, pos, replicate, some, sub_ℕ, suc, true, u64_mod, min, zero, ℕ, ℤ, ◌%◌, ◌*◌, ◌++◌,
  ◌+◌, ◌-◌, ◌/◌, ◌==◌, ◌||◌, ◌∷◌,
}

-- The digits of a number below 10 ^ fuel.
unfoldable pub digits : ℕ → ℕ → Bytes
digits zero n = []
digits (suc fuel) n =
    let front = digits fuel (n / 10) in
    if ltb n 10 then (b'0' + n) ∷ [] else front ++ (b'0' + n % 10) ∷ []

-- `%d` of a `uint64`, which has 20 digits at most.
unfoldable pub format_uint : ℕ → Bytes
unfolding digits
format_uint = digits 20

-- `%0*d`: at least `width` characters, zeros in front.
unfoldable pub format_padded : ℕ → ℕ → Bytes
unfolding format_uint
format_padded width n = replicate (width - length (format_uint n)) b'0' ++ format_uint n

-- `strconv.FormatInt(v, 10)`
unfoldable pub format_int : ℤ → Bytes
unfolding format_uint
format_int (pos n) = format_uint n
format_int (negsuc n) = b'-' ∷ format_uint (suc n)

abbrev pub is_digit : ℕ → Bool
is_digit c = if ltb c b'0' || ltb b'9' c then false else true

-- The number that digits spell behind `n`.
abbrev pub value : ℕ → Bytes → ℕ
value n [] = n
value n (c ∷ s) = value (n * 10 + (c - b'0')) s

all_digits : Bytes → Bool
all_digits [] = true
all_digits (c ∷ s) = if is_digit c then all_digits s else false

-- `strconv.ParseInt(s, 10, 64)` behind the sign.
parse_magnitude : Bool → Bytes → Option ℤ
unfolding all_digits
parse_magnitude neg [] = none
parse_magnitude neg (c ∷ s) =
    let n = value 0 (c ∷ s) in
    if all_digits (c ∷ s)
    then if ltb (if neg then max_i64 + 1 else max_i64) n
      then none
      else some (if neg then sub_ℕ 0 n else pos n)
    else none

unfoldable pub parse_int : Bytes → Option ℤ
unfolding parse_magnitude
parse_int [] = none
parse_int (c ∷ s) =
    if c == b'-'
    then parse_magnitude true s
    else if c == b'+'
    then parse_magnitude false s
    else parse_magnitude false (c ∷ s)

-- The number that `strconv.ParseUint(s, 10, 64)` returns, also beside the error that `s` passes 2^64 - 1
-- (then it is 2^64 - 1, whatever follows); `none` is the error that `s` is no number.
saturated_uint : ℕ → Bytes → Option ℕ
saturated_uint n [] = some n
saturated_uint n (c ∷ s) =
    let next = n * 10 + (c - b'0') in
    let rest = saturated_uint next s in
    if is_digit c then if ltb (u64_mod - 1) next then some (u64_mod - 1) else rest else none

-- The limit of `int64` on the sign's side is returned where the number passes it.
saturated_magnitude : Bool → Bytes → ℤ
unfolding saturated_uint
saturated_magnitude neg [] = pos 0
saturated_magnitude neg (c ∷ s) = elim (saturated_uint 0 (c ∷ s)) [
  | none ↦ pos 0
  | some n ↦ if neg then sub_ℕ 0 (min n (max_i64 + 1)) else pos (min n max_i64)
]

-- The number that `strconv.ParseInt(s, 10, 64)` returns beside an error that the caller drops.
unfoldable pub parse_int_or_limit : Bytes → ℤ
unfolding saturated_magnitude
parse_int_or_limit [] = pos 0
parse_int_or_limit (c ∷ s) =
    if c == b'-'
    then saturated_magnitude true s
    else if c == b'+'
    then saturated_magnitude false s
    else saturated_magnitude false (c ∷ s)
