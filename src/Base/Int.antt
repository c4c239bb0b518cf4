-- ===== src/Base/Int.antt =====
-- The C type `int`: an integer, with 32-bit two's complement wrap-around written out.
use Prim.Native.Nat.{ℕ, suc, ◌+◌, ◌-◌, ◌*◌, ◌%◌, ◌^◌, ◌≤◌, ◌<◌}
use mathlib.Core.Path.{◌≡◌}
use mathlib.Core.Bool.{Bool}
use mathlib.Core.List.{List}
use mathlib.Core.Option.{Option, none, some}
use native.Mathlib.Omega.{arith}
use simpletorrent_nju.Base.Tests.{ltb, leb, ◌==◌, if◌then◌else◌}
use simpletorrent_nju.Base.Lists.{get_elem?, set, length}

-- `negsuc n` is -(n + 1).
pub data ℤ : Type 0 where
  pos : ℕ → ℤ
  negsuc : ℕ → ℤ

abbrev pub pos_part : ℤ → ℕ
pos_part (pos n) = n
pos_part (negsuc n) = 0

abbrev pub neg_part : ℤ → ℕ
neg_part (pos n) = 0
neg_part (negsuc n) = suc n

-- a - b, as an integer.
abbrev pub sub_ℕ : ℕ → ℕ → ℤ
sub_ℕ a b = if leb b a then pos (a - b) else negsuc (b - a - 1)

infixl 65 ◌+ℤ◌ ◌-ℤ◌
infixl 70 ◌*ℤ◌
infix 50 ◌≤ℤ◌
unfoldable pub ◌+ℤ◌ : ℤ → ℤ → ℤ
a +ℤ b = sub_ℕ (pos_part a + pos_part b) (neg_part a + neg_part b)

unfoldable pub ◌-ℤ◌ : ℤ → ℤ → ℤ
a -ℤ b = sub_ℕ (pos_part a + neg_part b) (neg_part a + pos_part b)

unfoldable pub ◌*ℤ◌ : ℤ → ℤ → ℤ
a *ℤ b =
    sub_ℕ (pos_part a * pos_part b + neg_part a * neg_part b)
      (pos_part a * neg_part b + neg_part a * pos_part b)

abbrev pub ◌≤ℤ◌ : ℤ → ℤ → Type 0
a ≤ℤ b = pos_part a + neg_part b ≤ pos_part b + neg_part a

infix 50 ◌<ℤ◌
abbrev pub ◌<ℤ◌ : ℤ → ℤ → Type 0
a <ℤ b = pos_part a + neg_part b < pos_part b + neg_part a

abbrev pub ltb_ℤ : ℤ → ℤ → Bool
ltb_ℤ a b = ltb (pos_part a + neg_part b) (pos_part b + neg_part a)

abbrev pub leb_ℤ : ℤ → ℤ → Bool
leb_ℤ a b = leb (pos_part a + neg_part b) (pos_part b + neg_part a)

abbrev pub eqb_ℤ : ℤ → ℤ → Bool
eqb_ℤ a b = (pos_part a + neg_part b) == (pos_part b + neg_part a)

-- The bit pattern of an `int`, and the `int` of a bit pattern.
unfoldable pub bits32 : ℤ → ℕ
bits32 (pos n) = n % 2 ^ 32
bits32 (negsuc n) = 2 ^ 32 - 1 - n % 2 ^ 32

unfoldable pub signed32 : ℕ → ℤ
signed32 w = if ltb w (2 ^ 31) then pos w else negsuc (2 ^ 32 - w - 1)

-- What an `int` holds after an operation whose exact result is `z`.
unfoldable pub i32 : ℤ → ℤ
unfolding bits32 signed32
i32 z = signed32 (bits32 z)

-- The values of type `int`.
abbrev pub IsInt : ℤ → Type 0
IsInt z = (pos_part z < 2 ^ 31) × (neg_part z ≤ 2 ^ 31)

pub i32-IsInt_id : (z : ℤ) → IsInt z → i32 z ≡ z
unfolding i32
i32-IsInt_id z h = ground arith

pub i32-pos : (n : ℕ) → n < 2 ^ 31 → i32 (pos n) ≡ pos n
unfolding i32
i32-pos n h = ground arith

pub signed32-bits32 : (z : ℤ) → IsInt z → signed32 (bits32 z) ≡ z
unfolding bits32 signed32
signed32-bits32 z h = ground arith

pub bits32-signed32 : (w : ℕ) → w < 2 ^ 32 → bits32 (signed32 w) ≡ w
unfolding bits32 signed32
bits32-signed32 w h = ground arith

pub bits32-lt : (z : ℤ) → bits32 z < 2 ^ 32
unfolding bits32
bits32-lt z = ground arith

pub signed32-IsInt : (w : ℕ) → w < 2 ^ 32 → IsInt (signed32 w)
unfolding signed32
signed32-IsInt w h = ground arith

-- The conversion of an `int` to `size_t`.
unfoldable pub size_t : ℤ → ℕ
size_t (pos n) = n
size_t (negsuc n) = 2 ^ 64 - 1 - n

-- An array access; `none` is an access out of bounds.
abbrev pub get_at {ℓ} : {A : Type ℓ} → List A → ℤ → Option A
get_at xs (pos i) = get_elem? xs i
get_at xs (negsuc i) = none

-- A write to an array; `none` out of bounds.
abbrev pub put_at {ℓ} : {A : Type ℓ} → List A → ℤ → A → Option (List A)
put_at xs (pos i) v = if ltb i (length xs) then some (set xs i v) else none
put_at xs (negsuc i) v = none
