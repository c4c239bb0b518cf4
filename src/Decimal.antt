-- ===== src/Decimal.antt =====
-- What the program uses of the C library's decimal numbers: the conversions `%d` of sprintf, and
-- strtoll and atoi.
pub mod Laws
use simpletorrent_nju.Base.{
  ℕ, zero, suc, ◌+◌, ◌-◌, ◌*◌, ◌/◌, ◌%◌, ◌^◌, ltb, leb, ◌==◌, if◌then◌else◌, Bool, true, false,
  ◌&&◌, ◌||◌, List, [], ◌∷◌, Option, none, some, Bytes, ℤ, pos, negsuc, i32,
}

abbrev pub is_digit : ℕ → Bool
is_digit c = leb 48 c && leb c 57

-- isspace in the C locale.
abbrev pub is_space : ℕ → Bool
is_space c = c == 32 || (leb 9 c && leb c 13)

-- The decimal digits of `n`, of at most `f` digits, before `out`.
unfoldable pub digits : ℕ → ℕ → Bytes → Bytes
digits zero n out = out
digits (suc f) n out =
    let more = digits f (n / 10) ((48 + n % 10) ∷ out) in if ltb n 10 then (48 + n) ∷ out else more

-- A number below 10 ^ 20; `long long` has no greater one.
unfoldable pub decimal : ℕ → Bytes
unfolding digits
decimal n = digits 20 n []

-- `%d`, `%lld`.
unfoldable pub decimal_int : ℤ → Bytes
unfolding decimal
decimal_int (pos n) = decimal n
decimal_int (negsuc n) = 45 ∷ decimal (suc n)

-- The number that the digits at the front spell behind `n`, and what follows them.
unfoldable pub number : Bytes → ℕ → ℕ × Bytes
number [] n = (n, [])
number (c ∷ s) n =
    let more = number s (n * 10 + (c - 48)) in if is_digit c then more else (n, c ∷ s)

unfoldable pub skip_spaces : Bytes → Bytes
skip_spaces [] = []
skip_spaces (c ∷ s) = let rest = skip_spaces s in if is_space c then rest else c ∷ s

-- Whether a minus sign stands at the front, and what follows the sign.
abbrev pub sign : Bytes → Bool × Bytes
sign [] = (false, [])
sign (c ∷ s) = if c == 45 then (true, s) else if c == 43 then (false, s) else (false, c ∷ s)

-- The nearest `long long`.
abbrev pub clamp : Bool → ℕ → ℤ
clamp false n = if ltb n (2 ^ 63) then pos n else pos (2 ^ 63 - 1)
clamp true zero = pos 0
clamp true (suc n) = if ltb n (2 ^ 63) then negsuc n else negsuc (2 ^ 63 - 1)

-- What the digits give; a number that runs up to the end of the memory is read beyond it.
abbrev pub converted : Bool → ℕ × Bytes → Option (ℤ × Bytes)
converted neg (n, []) = none
converted neg (n, c ∷ s) = some (clamp neg n, c ∷ s)

-- What follows the sign; `start` is where the text begins, and is returned where no digit stands.
abbrev pub unsigned : Bytes → Bool × Bytes → Option (ℤ × Bytes)
unsigned start (neg, []) = none
unsigned start (neg, c ∷ s) =
    if is_digit c then converted neg (number (c ∷ s) 0) else some (pos 0, start)

-- `strtoll(s, &endp, 10)`: the value, and the text at `endp`. `none` is a read beyond the memory.
unfoldable pub strtoll : Bytes → Option (ℤ × Bytes)
unfolding number skip_spaces
strtoll s = unsigned s (sign (skip_spaces s))

-- `atoi(s)`.
unfoldable pub atoi : Bytes → Option ℤ
unfolding i32
atoi s = elim (strtoll s) [ none ↦ none | some r ↦ some (i32 r.0) ]
