-- ===== src/Bencode.antt =====
-- bencode.c: the decoder. The memory behind `*data` is a list of bytes, and a step takes it with the
-- number `*data_len` and gives what is left of both. `data_len` is smaller than the memory, so
-- that no step leaves `long long`. The lists of a node come from realloc, which does not fail.
pub mod Values
pub mod Steps
pub mod RoundTrip
pub mod Malformed
pub mod Free
use simpletorrent_nju.Base.{
  ℕ, zero, suc, ◌+◌, ◌-◌, ltb, leb, ◌==◌, if◌then◌else◌, Bool, true, false, ◌||◌, ◌&&◌, List, [],
  ◌∷◌, Option, none, some, Bytes, ℤ, pos, negsuc, ◌-ℤ◌, eqb_ℤ, ltb_ℤ, length, take, drop,
}
use simpletorrent_nju.Client.{is_neg}
use simpletorrent_nju.Decimal.{is_digit, strtoll}

-- `be_node *`, a pointer to a node or NULL. A string is what `val.s` points to, without its last
-- zero, or NULL. The arrays of a list and of a dictionary have an element of NULL behind these.
mutual
  pub data Node : Type 0 where
    null : Node
    be_str : Option Bytes → Node
    be_int : ℤ → Node
    be_list : Items → Node
    be_dict : Fields → Node

  pub data Items : Type 0 where
    no_items : Items
    item : Node → Items → Items

  -- `be_dict`: key and value.
  pub data Fields : Type 0 where
    no_fields : Fields
    field : Option Bytes → Node → Fields → Fields

-- `fault` is an access outside an object or through NULL; `no_fuel` has no counterpart in the
-- program, which goes on.
pub data Decoding (A : Type 0) : Type 0 where
  done : A → Bytes → ℤ → Decoding A
  fault : Decoding A
  no_fuel : Decoding A

abbrev pub Decoder : Type 0 → Type 0
Decoder A = Bytes → ℤ → Decoding A

abbrev pub pure : {A : Type 0} → A → Decoder A
pure a s n = done a s n

infixl 5 ◌>>=◌ ◌>>◌
abbrev pub ◌>>=◌ : {A B : Type 0} → Decoder A → (A → Decoder B) → Decoder B
◌>>=◌ m f s n = elim (m s n) [ done a s' n' ↦ f a s' n' | fault ↦ fault | no_fuel ↦ no_fuel ]

abbrev pub ◌>>◌ : {A B : Type 0} → Decoder A → Decoder B → Decoder B
m >> k = m >>= λ _. k

abbrev pub get_len : Decoder ℤ
get_len s n = done n s n

abbrev pub fail : {A : Type 0} → Decoder A
fail s n = fault

-- `**data`.
abbrev pub peek : Decoder ℕ
peek [] n = fault
peek (c ∷ s) n = done c (c ∷ s) n

-- `--(*data_len); ++(*data);`
unfoldable pub advance : Decoder (Unit {0})
unfolding ◌-ℤ◌
advance [] n = fault
advance (c ∷ s) n = done tt s (n -ℤ pos 1)

unfoldable pub after_int : Bytes → ℤ → Option (ℤ × Bytes) → Decoding ℤ
unfolding ◌-ℤ◌
after_int s n none = fault
after_int s n (some (z, rest)) = done z rest (n -ℤ pos (length s - length rest))

unfoldable pub decode_int : Decoder ℤ
unfolding strtoll after_int
decode_int s n = after_int s n (strtoll s)

-- The copy of `len` bytes behind the colon.
unfoldable pub copy_str : ℤ → Decoder (Option Bytes)
unfolding ◌-ℤ◌
copy_str (negsuc k) s n = fault
copy_str (pos len) [] n = fault
copy_str (pos len) (c ∷ s) n =
    if leb len (length s) then done (some (take len s)) (drop len s) (n -ℤ pos (len + 1)) else fault

-- `sllen > *data_len - 1`.
unfoldable pub is_short : ℤ → ℤ → Bool
unfolding ◌-ℤ◌
is_short data_len sllen = ltb_ℤ (data_len -ℤ pos 1) sllen

-- What follows the length. `none` is NULL; `long` has the size of `long long`.
unfoldable pub str_body : ℤ → Decoder (Option Bytes)
unfolding copy_str is_short
str_body sllen = do
  data_len ← get_len
  if is_neg sllen || is_short data_len sllen
      then pure none
      else (do c ← peek; if c == 58 then copy_str sllen else pure none)

unfoldable pub decode_str : Decoder (Option Bytes)
unfolding decode_int str_body
decode_str = decode_int >>= str_body

-- The cases of the switch.
pub data Kind : Type 0 where
  a_list a_dict an_int a_str invalid : Kind

unfoldable pub kind : ℕ → Kind
kind c =
    if c == 108
    then a_list
    else if c == 100
    then a_dict
    else if c == 105
    then an_int
    else if is_digit c
    then a_str
    else invalid

-- `**data == 'e'`.
unfoldable pub is_end : ℕ → Bool
is_end c = c == 101

-- The end of an int.
abbrev pub close_int : ℤ → Decoder Node
close_int z = do c ← peek; if is_end c then (do advance; pure (be_int z)) else pure null

-- NULL is written behind the last element: an empty list has no array.
abbrev pub close_list : Items → Decoder Node
close_list no_items = fail
close_list (item v vs) = pure (be_list (item v vs))

abbrev pub close_dict : Fields → Decoder Node
close_dict no_fields = fail
close_dict (field k v vs) = pure (be_dict (field k v vs))

-- `!*data_len`.
unfoldable pub no_data : ℤ → Bool
no_data n = eqb_ℤ n (pos 0)

-- The switch on the first byte, around the loops over a list and over a dictionary.
unfoldable pub switch : Kind → Decoder Items → Decoder Fields → Decoder Node
switch a_list items fields = do advance; vs ← items; close_list vs
switch a_dict items fields = do advance; vs ← fields; close_dict vs
switch an_int items fields = do advance; z ← decode_int; close_int z
switch a_str items fields = do s ← decode_str; pure (be_str s)
switch invalid items fields = pure null

-- The function's first test.
unfoldable pub unless_empty : Bool → Decoder Node → Decoder Node
unless_empty true m = pure null
unless_empty false m = m

-- A round of each loop, behind the test for its end.
unfoldable pub items_round : Bool → Decoder Node → Decoder Items → Decoder Items
items_round true node more = do advance; pure no_items
items_round false node more = do v ← node; vs ← more; pure (item v vs)

unfoldable pub fields_round : Bool → Decoder Node → Decoder Fields → Decoder Fields
fields_round true node more = do advance; pure no_fields
fields_round false node more = do k ← decode_str; v ← node; vs ← more; pure (field k v vs)

-- `_be_decode` and its two loops; each call and each round costs a unit of fuel.
unfoldable mutual
  pub decode_node : ℕ → Decoder Node
  decode_node zero s n = no_fuel
  decode_node (suc f) s n =
      unless_empty (no_data n) (do c ← peek; switch (kind c) (decode_items f) (decode_fields f)) s n

  pub decode_items : ℕ → Decoder Items
  decode_items zero s n = no_fuel
  decode_items (suc f) s n =
      (do c ← peek; items_round (is_end c) (decode_node f) (decode_items f)) s n

  pub decode_fields : ℕ → Decoder Fields
  decode_fields zero s n = no_fuel
  decode_fields (suc f) s n =
      (do c ← peek; fields_round (is_end c) (decode_node f) (decode_fields f)) s n

-- What the decoder returns; the local copies of `data` and `len` are given up.
pub data Result : Type 0 where
  returns : Node → Result
  faults : Result
  goes_on : Result

abbrev pub result : Decoding Node → Result
result (done v s n) = returns v
result fault = faults
result no_fuel = goes_on

unfoldable pub be_decoden : ℕ → Bytes → ℤ → Result
unfolding decode_node
be_decoden f bytes len = result (decode_node f bytes len)

unfoldable pub strlen : Bytes → ℕ
strlen [] = 0
strlen (c ∷ s) = let more = suc (strlen s) in if c == 0 then 0 else more

-- On a text that ends in a zero.
unfoldable pub be_decode : ℕ → Bytes → Result
unfolding be_decoden strlen
be_decode f bytes = be_decoden f bytes (pos (strlen bytes))
