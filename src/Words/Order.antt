-- ===== src/Words/Order.antt =====
-- What the byte order of util.c means on the wire.
use simpletorrent_nju.Base.{
  ℕ, ◌+◌, ◌*◌, ◌/◌, ◌%◌, ◌^◌, ◌<◌, ◌≡◌, refl, ℤ, Bytes, ◌++◌, bits32, IsInt, bits32-signed32,
  signed32-bits32, bits32-lt, signed32-IsInt, arith,
}
use simpletorrent_nju.Words.{reverse_bits, reverse_byte_orderi, int_bytes, int_at, big_endian}

reverse_bits-lt : (w : ℕ) → reverse_bits w < 2 ^ 32
unfolding reverse_bits
reverse_bits-lt w = omega arith

reverse_bits_bytes :
    (w : ℕ)
    → (reverse_bits w % 256 ≡ w / 2 ^ 24 % 256)
      × (reverse_bits w / 2 ^ 8 % 256 ≡ w / 2 ^ 16 % 256)
      × (reverse_bits w / 2 ^ 16 % 256 ≡ w / 2 ^ 8 % 256)
      × (reverse_bits w / 2 ^ 24 % 256 ≡ w % 256)
unfolding reverse_bits
reverse_bits_bytes w = omega arith

join_bytes :
    (w : ℕ)
    → w < 2 ^ 32
    → w % 256 + w / 2 ^ 8 % 256 * 2 ^ 8 + w / 2 ^ 16 % 256 * 2 ^ 16 + w / 2 ^ 24 % 256 * 2 ^ 24 ≡ w
join_bytes w h = omega arith

reverse_bits_lem :
    (w : ℕ)
    → reverse_bits w
      ≡ w % 256 * 2 ^ 24 + w / 2 ^ 8 % 256 * 2 ^ 16 + w / 2 ^ 16 % 256 * 2 ^ 8 + w / 2 ^ 24 % 256
unfolding reverse_bits
reverse_bits_lem w = refl

reverse_bits-reverse_bits : (w : ℕ) → w < 2 ^ 32 → reverse_bits (reverse_bits w) ≡ w
reverse_bits-reverse_bits w h =
    omega (arith, reverse_bits_lem (reverse_bits w), reverse_bits_bytes w, join_bytes w h)

-- Reversing an `int` and storing it writes its big-endian bytes.
pub int_bytes-reverse : (i : ℤ) → int_bytes (reverse_byte_orderi i) ≡ big_endian (bits32 i)
unfolding int_bytes reverse_byte_orderi
int_bytes-reverse i =
    rw (bits32-signed32 _ (reverse_bits-lt (bits32 i)))
      (ground (arith, reverse_bits_bytes (bits32 i)))

-- Reversing twice gives back every value of type `int`.
pub reverse-reverse : (i : ℤ) → IsInt i → reverse_byte_orderi (reverse_byte_orderi i) ≡ i
unfolding reverse_byte_orderi
reverse-reverse i h =
    rw (bits32-signed32 _ (reverse_bits-lt (bits32 i)), reverse_bits-reverse_bits _ (bits32-lt i))
      (signed32-bits32 i h)

pub int_at-int_bytes : (i : ℤ) (rest : Bytes) → IsInt i → int_at (int_bytes i ++ rest) ≡ i
unfolding int_at int_bytes
int_at-int_bytes i rest h = rw (join_bytes _ (bits32-lt i)) (signed32-bits32 i h)

pub reverse-IsInt : (i : ℤ) → IsInt (reverse_byte_orderi i)
unfolding reverse_byte_orderi
reverse-IsInt i = signed32-IsInt _ (reverse_bits-lt (bits32 i))

-- For every value of type `int`: the bytes that `reverse_byte_orderi` prepares for the wire are those
-- of the value from the highest to the lowest, and it reads the value back from them, whatever follows.
pub reverse-int_at :
    (i : ℤ) (rest : Bytes)
    → IsInt i
    → (int_bytes (reverse_byte_orderi i) ≡ big_endian (bits32 i))
      × (reverse_byte_orderi (int_at (int_bytes (reverse_byte_orderi i) ++ rest)) ≡ i)
reverse-int_at i rest h =
    (int_bytes-reverse i, rw (int_at-int_bytes _ rest (reverse-IsInt i)) (reverse-reverse i h))
