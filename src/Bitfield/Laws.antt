-- ===== src/Bitfield/Laws.antt =====
-- A bitfield is an array of bits: reading gives the last bit written.
use Prim.Native.Nat.{bit_and-bitwise}
use simpletorrent_nju.Base.{
  inl, inr, ◌^◌, ℕ, zero, suc, ◌-◌, ◌/◌, ◌%◌, ◌<◌, ◌==◌, if◌then◌else◌, Bool, false, ◌≡◌, refl,
  arith, ℤ, pos, negsuc, Bytes, [], ◌∷◌, none, some, get_elem?, set, length, replicate, length-set,
  get_elem?-set_self, get_elem?-set_ne, get_elem?-lt, ℕ_discrete, ◌≤ℤ◌, ◌*ℤ◌, ◌⊎◌,
}
use simpletorrent_nju.Bitfield.{has_bit, put_bit, set_bit_at_index, get_bit_at_index}
use simpletorrent_nju.Bitfield.Table.{has_bit-put_bit, put_bit-lt}

-- Every entry of the array is a byte.
abbrev pub AreBytes : Bytes → Type 0
AreBytes [] = Unit {0}
AreBytes (b ∷ bs) = (b < 256) × AreBytes bs

AreBytes-get : (bs : Bytes) (i : ℕ) {b : ℕ} → AreBytes bs → get_elem? bs i ≡ some b → b < 256
AreBytes-get [] i h e = cc
AreBytes-get (x ∷ bs) zero h e = ground arith
AreBytes-get (x ∷ bs) (suc i) h e = AreBytes-get bs i h.1 e

AreBytes-set : (bs : Bytes) (i b : ℕ) → AreBytes bs → b < 256 → AreBytes (set bs i b)
AreBytes-set [] i b h lt = tt
AreBytes-set (x ∷ bs) zero b h lt = (lt, h.1)
AreBytes-set (x ∷ bs) (suc i) b h lt = (h.0, AreBytes-set bs i b h.1 lt)

pub AreBytes-zeros : (n : ℕ) → AreBytes (replicate n 0)
AreBytes-zeros zero = tt
AreBytes-zeros (suc n) = (omega arith, AreBytes-zeros n)

-- The bits of the bitfield as a function.
unfoldable pub bit_of : Bytes → ℕ → Bool
bit_of bs i = elim (get_elem? bs (i / 8)) [ none ↦ false | some b ↦ has_bit b (7 - i % 8) ]

bit_of-set_byte :
    (bs : Bytes) (i j b : ℕ) (bit : Bool)
    → get_elem? bs (i / 8) ≡ some b
    → i / 8 < length bs
    → b < 256
    → bit_of (set bs (i / 8) (put_bit b (7 - i % 8) bit)) j ≡ (if i == j then bit else bit_of bs j)
unfolding bit_of
bit_of-set_byte bs i j b bit e h lt = elim (ℕ_discrete (i / 8) (j / 8)) [
  | yes same ↦ ground (
    arith,
    get_elem?-set_self bs (i / 8) (put_bit b (7 - i % 8) bit) h,
    has_bit-put_bit bit b (7 - i % 8) (7 - j % 8) lt,
  )
  | no other ↦ ground (arith, get_elem?-set_ne bs (i / 8) (j / 8) (put_bit b (7 - i % 8) bit) other)
]

pub set_bit-some :
    (bs : Bytes) (i : ℕ) (bit : Bool)
    → i / 8 < length bs
    → AreBytes bs
    → (bs' : Bytes) × (set_bit_at_index bs i bit ≡ some bs')
      × (length bs' ≡ length bs)
      × AreBytes bs'
      × ((j : ℕ) → bit_of bs' j ≡ (if i == j then bit else bit_of bs j))
unfolding set_bit_at_index
set_bit-some bs i bit h ok =
    let (b, e) = get_elem?-lt bs (i / 8) h in
    let lt = AreBytes-get bs (i / 8) ok e in
    (
      set bs (i / 8) (put_bit b (7 - i % 8) bit),
      rw (set_bit_at_index, e) refl,
      length-set bs _ _,
      AreBytes-set bs _ _ ok (put_bit-lt bit b _ lt (omega arith)),
      λ j. bit_of-set_byte bs i j b bit e h lt,
    )

pub get_bit-bit_of :
    (bs : Bytes) (i : ℕ)
    → i / 8 < length bs
    → get_bit_at_index bs (pos i) (pos (length bs)) ≡ some (if bit_of bs i then pos 1 else pos 0)
unfolding get_bit_at_index bit_of
get_bit-bit_of bs i h = let (b, e) = get_elem?-lt bs (i / 8) h in rw e (ground arith)

-- Writing one bit of an array of bytes and reading any bit of it, both in bounds: the write
-- succeeds, the bit that was written has the new value, and every other one its old value.
pub get_bit-set_bit :
    (bs : Bytes) (i j : ℕ) (bit : Bool)
    → i / 8 < length bs
    → j / 8 < length bs
    → AreBytes bs
    → (bs' : Bytes) × (set_bit_at_index bs i bit ≡ some bs')
      × (get_bit_at_index bs' (pos j) (pos (length bs)) ≡ (
          if i == j
          then some (if bit then pos 1 else pos 0)
          else get_bit_at_index bs (pos j) (pos (length bs))))
get_bit-set_bit bs i j bit hi hj ok =
    let (bs', e, len, _, bits) = set_bit-some bs i bit hi ok in
    (bs', e, ground (arith, bits j, get_bit-bit_of bs j hj, get_bit-bit_of bs' j))

-- Outside the array the answer is -1, whatever the bytes: nothing is read.
get_bit_outside :
    (bs : Bytes) (index bflen : ℤ)
    → (index ≤ℤ negsuc 0) ⊎ (bflen *ℤ pos 8 ≤ℤ index)
    → get_bit_at_index bs index bflen ≡ some (negsuc 0)
unfolding get_bit_at_index ◌*ℤ◌
get_bit_outside bs (pos i) bflen h = ground arith
get_bit_outside bs (negsuc k) bflen h = refl

has_bit_zero : (k : ℕ) → has_bit 0 k ≡ false
unfolding has_bit
has_bit_zero k = rw (bit_and-bitwise 0 (2 ^ k)) refl

get_elem?-zeros :
    (n i : ℕ)
    → (get_elem? {A = ℕ} (replicate n 0) i ≡ none) ⊎ (get_elem? {A = ℕ} (replicate n 0) i ≡ some 0)
get_elem?-zeros zero i = inl refl
get_elem?-zeros (suc n) zero = inr refl
get_elem?-zeros (suc n) (suc i) = get_elem?-zeros n i

-- A bitfield of zeros has no bit.
pub bit_of-zeros : (n j : ℕ) → bit_of (replicate n 0) j ≡ false
unfolding bit_of
bit_of-zeros n j = elim (get_elem?-zeros n (j / 8)) [
  | inl e ↦ rw (bit_of, e) refl
  | inr e ↦ rw (bit_of, e) (has_bit_zero (7 - j % 8))
]
