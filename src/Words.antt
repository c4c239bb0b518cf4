-- ===== src/Words.antt =====
-- util.c, `reverse_byte_orderi`, and the bytes of an `int` in the memory of a little-endian
-- machine, which is how peer_wire.c reads and writes the integers of a message.
pub mod Order
use simpletorrent_nju.Base.{ℕ, ◌+◌, ◌*◌, ◌/◌, ◌%◌, ◌^◌, ℤ, pos, Bytes, [], ◌∷◌, bits32, signed32}

-- Lines 199 to 203 on the bit pattern of `i`. The shift of a signed `int` repeats its sign, which the
-- mask 0xFF hides from the eight bits kept.
unfoldable pub reverse_bits : ℕ → ℕ
reverse_bits w =
    let c1 = w % 256 in
    let c2 = w / 2 ^ 8 % 256 in
    let c3 = w / 2 ^ 16 % 256 in
    let c4 = w / 2 ^ 24 % 256 in c1 * 2 ^ 24 + c2 * 2 ^ 16 + c3 * 2 ^ 8 + c4

unfoldable pub reverse_byte_orderi : ℤ → ℤ
reverse_byte_orderi i = signed32 (reverse_bits (bits32 i))

-- The four bytes at the address of an `int`, lowest first.
unfoldable pub int_bytes : ℤ → Bytes
int_bytes i =
    let w = bits32 i in w % 256 ∷ w / 2 ^ 8 % 256 ∷ w / 2 ^ 16 % 256 ∷ w / 2 ^ 24 % 256 ∷ []

-- The `int` at an address: the first four bytes there.
unfoldable pub int_at : Bytes → ℤ
int_at (a ∷ b ∷ c ∷ d ∷ rest) = signed32 (a + b * 2 ^ 8 + c * 2 ^ 16 + d * 2 ^ 24)
int_at bytes = pos 0

-- The big-endian bytes of a 32-bit pattern: the memory of a word behind htonl.
abbrev pub big_endian : ℕ → Bytes
big_endian w = w / 2 ^ 24 % 256 ∷ w / 2 ^ 16 % 256 ∷ w / 2 ^ 8 % 256 ∷ w % 256 ∷ []
