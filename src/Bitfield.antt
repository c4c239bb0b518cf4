-- ===== src/Bitfield.antt =====
-- The bits of a bitfield: `get_bit_at_index` of peer_wire.c and `set_bit_at_index` of fileio.c.
-- A byte is the number of its bit pattern; `none` is an access outside the array.
mod Table
pub mod Laws
use Prim.Native.Nat.{bit_and, bit_or}
use simpletorrent_nju.Base.{
  ℕ, ◌+◌, ◌-◌, ◌/◌, ◌%◌, ◌^◌, ◌==◌, if◌then◌else◌, Bool, true, false, ℤ, pos, negsuc, eqb_ℤ, leb_ℤ,
  Bytes, Option, none, some, get_elem?, set,
}

-- The table `set_bit`.
unfoldable pub set_bit : ℕ → ℕ
set_bit offset = 2 ^ offset

-- `byte & (1 << i)` is not zero.
unfoldable pub has_bit : ℕ → ℕ → Bool
has_bit byte i = if bit_and byte (2 ^ i) == 0 then false else true

-- `byte | set_bit[offset]`, or `byte & ~set_bit[offset]`.
unfoldable pub put_bit : ℕ → ℕ → Bool → ℕ
unfolding set_bit
put_bit byte offset bit =
    if bit then bit_or byte (set_bit offset) else bit_and byte (255 - set_bit offset)

-- The caller's index is never negative.
unfoldable pub set_bit_at_index : Bytes → ℕ → Bool → Option Bytes
set_bit_at_index info index bit =
    let offset = 7 - index % 8 in
    elim (get_elem? info (index / 8)) [
      | none ↦ none
      | some byte ↦ some (set info (index / 8) (put_bit byte offset bit))
    ]

-- -1 for an index that is negative or behind the `bflen` bytes.
unfoldable pub get_bit_at_index : Bytes → ℤ → ℤ → Option ℤ
get_bit_at_index bitfield (negsuc k) bflen = some (negsuc 0)
get_bit_at_index bitfield (pos index) bflen =
    if leb_ℤ bflen (pos (index / 8))
    then some (negsuc 0)
    else elim (get_elem? bitfield (index / 8)) [
      | none ↦ none
      | some byte ↦ some (if has_bit byte (7 - index % 8) then pos 1 else pos 0)
    ]
