-- ===== src/Decimal/Laws.antt =====
-- What is printed in decimal is read back, with what follows it.
use simpletorrent_nju.Base.{
  ◌≡◌, inl, inr, Bool-cases, pos_part, neg_part, refl, ℕ, zero, suc, ◌+◌, ◌-◌, ◌*◌, ◌/◌, ◌%◌, ◌^◌,
  ◌<◌, ◌≤◌, ltb, Bool, true, false, [], ◌∷◌, ◌++◌, some, Bytes, ℤ, pos, negsuc, arith,
}
use simpletorrent_nju.Decimal.{
  is_digit, digits, decimal, decimal_int, number, skip_spaces, sign, clamp, unsigned, strtoll,
}

-- a text that begins with no digit
abbrev pub Stops : Bytes → Type 0
Stops [] = ⊥
Stops (c ∷ s) = is_digit c ≡ false

number_digit :
    (c : ℕ) (s : Bytes) (n : ℕ)
    → is_digit c ≡ true
    → number (c ∷ s) n ≡ number s (n * 10 + (c - 48))
unfolding number
number_digit c s n h = rw h

number-Stops : (s : Bytes) (n : ℕ) → Stops s → number s n ≡ (n, s)
unfolding number
number-Stops [] n h = absurd h
number-Stops (c ∷ s) n h = rw h

digits_append : (f n : ℕ) (out rest : Bytes) → digits f n out ++ rest ≡ digits f n (out ++ rest)
unfolding digits
digits_append zero n out rest = refl
digits_append (suc f) n out rest =
    grind (arith, digits_append f (n / 10) ((48 + n % 10) ∷ out) rest)

-- reading the digits of `n` from the left gives `n`
pub number-digits : (f n : ℕ) (out : Bytes) → n < 10 ^ f → number (digits f n out) 0 ≡ number out n
unfolding digits
number-digits zero n out h = let e : n ≡ 0 = omega arith in rw e
number-digits (suc f) n out h =
    let ih = number-digits f (n / 10) ((48 + n % 10) ∷ out) (omega arith) in
    grind (arith, ih, number_digit (48 + n % 10) out (n / 10), number_digit (48 + n) out 0)

-- a text that begins with a digit
abbrev pub Starts : Bytes → Type 0
Starts [] = ⊥
Starts (c ∷ s) = is_digit c ≡ true

digits-Starts_out : (f n c : ℕ) (out : Bytes) → is_digit c ≡ true → Starts (digits f n (c ∷ out))
unfolding digits
digits-Starts_out zero n c out h = h
digits-Starts_out (suc f) n c out h = elim (Bool-cases (ltb n 10)) [
  | inl e ↦ rw e (ground arith)
  | inr e ↦ rw e (digits-Starts_out f (n / 10) (48 + n % 10) (c ∷ out) (ground arith))
]

digits-Starts : (f n : ℕ) (out : Bytes) → Starts (digits (suc f) n out)
unfolding digits
digits-Starts f n out = elim (Bool-cases (ltb n 10)) [
  | inl e ↦ rw e (ground arith)
  | inr e ↦ rw e (digits-Starts_out f (n / 10) (48 + n % 10) out (ground arith))
]

-- a text of which the digits at the front spell `n` converts to the number nearest to it
unsigned-Starts :
    (start : Bytes) (neg : Bool) (s : Bytes) (n c : ℕ) (rest : Bytes)
    → Starts s
    → number s 0 ≡ (n, c ∷ rest)
    → unsigned start (neg, s) ≡ some (clamp neg n, c ∷ rest)
unsigned-Starts start neg [] n c rest h e = absurd h
unsigned-Starts start neg (d ∷ s) n c rest h e = rw h (rw e)

skip_sign-Starts : (s : Bytes) → Starts s → sign (skip_spaces s) ≡ (false, s)
unfolding skip_spaces
skip_sign-Starts [] h = absurd h
skip_sign-Starts (c ∷ s) h = ground arith

number-decimal :
    (n c : ℕ) (rest : Bytes)
    → n < 2 ^ 64
    → is_digit c ≡ false
    → number (decimal n ++ c ∷ rest) 0 ≡ (n, c ∷ rest)
unfolding decimal
number-decimal n c rest h stop =
    rw (digits_append 20 n [] (c ∷ rest))
      (rw (number-digits 20 n (c ∷ rest) (omega arith)) (number-Stops (c ∷ rest) n stop))

pub decimal-Starts : (n : ℕ) (rest : Bytes) → Starts (decimal n ++ rest)
unfolding decimal
decimal-Starts n rest = rw (digits_append 20 n [] rest) (digits-Starts 19 n rest)

-- The values of type `long long`.
abbrev pub IsLong : ℤ → Type 0
IsLong z = (pos_part z < 2 ^ 63) × (neg_part z ≤ 2 ^ 63)

clamp-pos : (n : ℕ) → n < 2 ^ 63 → clamp false n ≡ pos n
clamp-pos n h = ground arith

clamp-negsuc : (n : ℕ) → n < 2 ^ 63 → clamp true (suc n) ≡ negsuc n
clamp-negsuc n h = ground arith

-- A number printed with `%lld` is read back by strtoll, up to a byte that is no digit.
pub strtoll-decimal_int :
    (z : ℤ) (c : ℕ) (rest : Bytes)
    → IsLong z
    → is_digit c ≡ false
    → strtoll (decimal_int z ++ c ∷ rest) ≡ some (z, c ∷ rest)
unfolding strtoll decimal_int
strtoll-decimal_int (pos n) c rest h stop =
    let first = decimal-Starts n (c ∷ rest) in
    let read = number-decimal n c rest (omega arith) stop in
    rw (skip_sign-Starts _ first)
      (rw (unsigned-Starts _ false _ n c rest first read) (rw (clamp-pos n (omega arith))))
strtoll-decimal_int (negsuc n) c rest h stop =
    let first = decimal-Starts (suc n) (c ∷ rest) in
    let read = number-decimal (suc n) c rest (omega arith) stop in
    unfold skip_spaces in
    rw (unsigned-Starts _ true _ (suc n) c rest first read) (rw (clamp-negsuc n (omega arith)))
