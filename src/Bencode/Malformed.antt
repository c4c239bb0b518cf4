-- ===== src/Bencode/Malformed.antt =====
-- What the decoder does with texts that the protocol does not allow.
use simpletorrent_nju.Base.{
  ◌≡◌, refl, ◌⊎◌, inl, inr, Bool-cases, ◌∙◌, ℕ, zero, suc, ◌+◌, ◌^◌, ◌<◌, ◌≤◌, true, false, ◌∷◌,
  ◌++◌, none, Bytes, ℤ, pos, ◌-ℤ◌, arith, length,
}
use simpletorrent_nju.Decimal.{is_digit, decimal, decimal_int}
use simpletorrent_nju.Decimal.Laws.{IsLong}
use simpletorrent_nju.Bencode.{
  null, done, no_fuel, ◌>>=◌, ◌>>◌, decode_int, decode_str, str_body, is_short, kind, invalid,
  is_end, no_data, unless_empty, switch, items_round, advance, decode_node, decode_items, goes_on,
  be_decoden,
}
use simpletorrent_nju.Bencode.Steps.{bind_done, decode_int_emit, no_data-pos}

-- Where an element cannot be read: no data is left, or the byte begins no value.
abbrev pub IsStuck : ℕ → ℤ → Type 0
IsStuck c n = (is_end c ≡ false) × ((no_data n ≡ true) ⊎ (kind c ≡ invalid))

decode_node-IsStuck :
    (f c : ℕ) (s : Bytes) (n : ℤ)
    → IsStuck c n
    → decode_node (suc f) (c ∷ s) n ≡ done null (c ∷ s) n
unfolding decode_node unless_empty switch
decode_node-IsStuck f c s n (_, inl h) = rw h
decode_node-IsStuck f c s n (_, inr h) = elim (Bool-cases (no_data n)) [
  | inl e ↦ rw e
  | inr e ↦ rw e (rw h)
]

decode_items-IsStuck :
    (f c : ℕ) (s : Bytes) (n : ℤ) → IsStuck c n → decode_items f (c ∷ s) n ≡ no_fuel
unfolding decode_items items_round
decode_items-IsStuck zero c s n h = refl
decode_items-IsStuck (suc zero) c s n h = rw h.0
decode_items-IsStuck (suc (suc f)) c s n h =
    rw h.0
      (rw (decode_node-IsStuck f c s n h, ◌>>=◌) (rw (decode_items-IsStuck (suc f) c s n h, ◌>>=◌)))

advance_one : (c k : ℕ) (s : Bytes) → advance (c ∷ s) (pos (suc k)) ≡ done tt s (pos k)
unfolding advance ◌-ℤ◌
advance_one c k s = ground arith

-- A list whose first element is a byte that begins no value, or whose length ends before its first
-- element, is never done: whatever the fuel, the loop goes on.
pub be_decoden-IsStuck :
    (f c k : ℕ) (s : Bytes) → IsStuck c (pos k) → be_decoden f (108 ∷ c ∷ s) (pos (suc k)) ≡ goes_on
unfolding be_decoden decode_node unless_empty switch kind
be_decoden-IsStuck zero c k s h = refl
be_decoden-IsStuck (suc f) c k s h =
    rw (no_data-pos (suc k) (omega arith)) (
      rw (advance_one 108 k (c ∷ s), ◌>>◌, ◌>>=◌)
        (rw (decode_items-IsStuck f c s (pos k) h, ◌>>=◌)))

too_short : (k m : ℕ) → m ≤ k → is_short (pos m) (pos k) ≡ true
unfolding is_short ◌-ℤ◌
too_short k m h = ground arith

str_body_short : (k m : ℕ) (s : Bytes) → m ≤ k → str_body (pos k) s (pos m) ≡ done none s (pos m)
unfolding str_body
str_body_short k m s h = rw (too_short k m h)

-- A string that is longer than the data behind its length, the colon counted, is NULL, and only
-- the number has been read.
pub decode_str_short :
    (k m : ℕ) (rest : Bytes)
    → k < 2 ^ 63
    → m ≤ k
    → decode_str (decimal k ++ 58 ∷ rest) (pos (length (decimal k) + m))
      ≡ done none (58 ∷ rest) (pos m)
unfolding decode_str decimal_int
decode_str_short k m rest h short =
    let read = decode_int_emit (pos k) 58 m rest (ground arith) refl in
    bind_done decode_int str_body (decimal k ++ 58 ∷ rest) (pos (length (decimal k) + m)) read
    ∙ str_body_short k m (58 ∷ rest) short

-- A number that is not closed by `e` gives NULL, and the byte behind the number is next.
pub decode_node_open_int :
    (f c m : ℕ) (z : ℤ) (rest : Bytes)
    → IsLong z
    → is_digit c ≡ false
    → is_end c ≡ false
    → decode_node
        (suc f)
        (105 ∷ (decimal_int z ++ c ∷ rest))
        (pos (suc (length (decimal_int z) + m)))
      ≡ done null (c ∷ rest) (pos m)
unfolding decode_node unless_empty switch kind
decode_node_open_int f c m z rest h stop more =
    let k = length (decimal_int z) + m in
    let inside = decode_int_emit z c m rest h stop in
    rw (no_data-pos (suc k) (omega arith)) (
      rw (advance_one 105 k (decimal_int z ++ c ∷ rest), ◌>>◌, ◌>>=◌)
        (rw (inside, ◌>>=◌) (rw more)))
