-- ===== src/Bencode/Steps.antt =====
-- The single steps of the decoder on a text that was written.
use mathlib.Core.List.{append_assoc}
use simpletorrent_nju.Base.{
  ◌≡◌, refl, ap, ◌∙◌, ℕ, suc, ◌+◌, ◌-◌, ◌^◌, ◌<◌, true, false, [], ◌∷◌, ◌++◌, Option, some, Bytes,
  ℤ, pos, ◌-ℤ◌, arith, length, length-append, take-append, drop-append,
}
use simpletorrent_nju.Decimal.{is_digit, decimal, decimal_int}
use simpletorrent_nju.Decimal.Laws.{IsLong, Starts, decimal-Starts, strtoll-decimal_int}
use simpletorrent_nju.Bencode.{
  Node, Items, Fields, be_str, be_int, be_list, be_dict, no_items, item, no_fields, field, done,
  fault, no_fuel, Decoder, pure, ◌>>=◌, ◌>>◌, advance, after_int, decode_int, decode_str, str_body,
  kind, switch, unless_empty, items_round, fields_round, a_str, is_end, no_data, decode_node,
  decode_items, decode_fields,
}
use simpletorrent_nju.Bencode.Values.{emit_str}

-- a step that is done, before another one
pub bind_done :
    {A B : Type 0} (m : Decoder A) (f : A → Decoder B) (s : Bytes) (n : ℤ) {a : A} {s' : Bytes}
    {n' : ℤ}
    → m s n ≡ done a s' n'
    → (m >>= f) s n ≡ f a s' n'
bind_done m f s n e =
    ap (λ o. elim o [ done a s' n' ↦ f a s' n' | fault ↦ fault | no_fuel ↦ no_fuel ]) e

minus : (a b m : ℕ) → pos (a + m) -ℤ pos (a + b - b) ≡ pos m
unfolding ◌-ℤ◌
minus a b m = ground arith

pub decode_int_emit :
    (z : ℤ) (c m : ℕ) (rest : Bytes)
    → IsLong z
    → is_digit c ≡ false
    → decode_int (decimal_int z ++ c ∷ rest) (pos (length (decimal_int z) + m))
      ≡ done z (c ∷ rest) (pos m)
unfolding decode_int after_int
decode_int_emit z c m rest h stop = rw (strtoll-decimal_int z c rest h stop) (
    rw (length-append (decimal_int z) (c ∷ rest))
      (rw (minus (length (decimal_int z)) (suc (length rest)) m)))

str_body_emit :
    (s rest : Bytes) (m : ℕ)
    → str_body (pos (length s)) (58 ∷ (s ++ rest)) (pos (suc (length s) + m))
      ≡ done (some s) rest (pos m)
unfolding str_body ◌-ℤ◌
str_body_emit s rest m =
    ground (arith, length-append s rest, take-append s rest, drop-append s rest)

pub decode_str_emit :
    (s rest : Bytes) (m : ℕ)
    → length s < 2 ^ 63
    → decode_str (emit_str s ++ rest) (pos (length (emit_str s) + m)) ≡ done (some s) rest (pos m)
unfolding emit_str decode_str decimal_int
decode_str_emit s rest m h =
    let read =
      decode_int_emit (pos (length s)) 58 (suc (length s) + m) (s ++ rest) (ground arith) refl in
    let e : length (decimal (length s)) + suc (length s) + m
        ≡ length (decimal (length s)) + (suc (length s) + m) =
      omega arith in
    rw (append_assoc (decimal (length s)) (58 ∷ s) rest) (
      rw (length-append (decimal (length s)) (58 ∷ s)) (
        rw e (
          bind_done decode_int str_body (decimal (length s) ++ 58 ∷ (s ++ rest))
            (pos (length (decimal (length s)) + (suc (length s) + m))) read
          ∙ str_body_emit s rest m)))

kind_digit : (c : ℕ) → is_digit c ≡ true → kind c ≡ a_str
unfolding kind
kind_digit c h = ground arith

pub no_data-pos : (n : ℕ) → 0 < n → no_data (pos n) ≡ false
unfolding no_data
no_data-pos n h = ground arith

pub is_end_digit : (c : ℕ) → is_digit c ≡ true → is_end c ≡ false
unfolding is_end
is_end_digit c h = ground arith

pub decode_node-Starts :
    (f : ℕ) (s : Bytes) (n : ℕ)
    → 0 < n
    → Starts s
    → decode_node (suc f) s (pos n) ≡ (decode_str >>= λ o. pure (be_str o)) s (pos n)
unfolding decode_node unless_empty switch
decode_node-Starts f [] n p h = absurd h
decode_node-Starts f (c ∷ s) n p h = rw (no_data-pos n p) (rw (kind_digit c h))

-- a text that begins, and not with the end of a list
abbrev pub Opens : Bytes → Type 0
Opens [] = ⊥
Opens (c ∷ s) = is_end c ≡ false

decode_items-Opens :
    (f : ℕ) (s : Bytes) (n : ℤ)
    → Opens s
    → decode_items (suc f) s n
      ≡ (decode_node f >>= λ v. decode_items f >>= λ vs. pure (item v vs)) s n
unfolding decode_items items_round
decode_items-Opens f [] n h = absurd h
decode_items-Opens f (c ∷ s) n h = rw h

decode_fields-Starts :
    (f : ℕ) (s : Bytes) (n : ℤ)
    → Starts s
    → decode_fields (suc f) s n
      ≡ (decode_str >>= λ k. decode_node f >>= λ v. decode_fields f >>= λ vs. pure (field k v vs)) s
          n
unfolding decode_fields fields_round
decode_fields-Starts f [] n h = absurd h
decode_fields-Starts f (c ∷ s) n h = rw (is_end_digit c h)

pub advance_emit :
    (c k m : ℕ) (s : Bytes) → advance (c ∷ s) (pos (suc k + m)) ≡ done tt s (pos (k + m))
unfolding advance ◌-ℤ◌
advance_emit c k m s = ground arith

advance_last : (c m : ℕ) (s : Bytes) → advance (c ∷ s) (pos (1 + m)) ≡ done tt s (pos m)
unfolding advance ◌-ℤ◌
advance_last c m s = ground arith

pub emit_str-Starts : (s rest : Bytes) → Starts (emit_str s ++ rest)
unfolding emit_str
emit_str-Starts s rest =
    rw (append_assoc (decimal (length s)) (58 ∷ s) rest)
      (decimal-Starts (length s) (58 ∷ (s ++ rest)))

pub length-emit_str_pos : (s : Bytes) → 0 < length (emit_str s)
unfolding emit_str
length-emit_str_pos s = omega (arith, length-append (decimal (length s)) (58 ∷ s))

pub read_str :
    (f m : ℕ) (s rest : Bytes)
    → length s < 2 ^ 63
    → decode_node (suc f) (emit_str s ++ rest) (pos (length (emit_str s) + m))
      ≡ done (be_str (some s)) rest (pos m)
read_str f m s rest h =
    rw
      (decode_node-Starts f (emit_str s ++ rest) (length (emit_str s) + m)
        (omega (arith, length-emit_str_pos s)) (emit_str-Starts s rest))
      (bind_done decode_str (λ o. pure (be_str o)) (emit_str s ++ rest)
        (pos (length (emit_str s) + m)) (decode_str_emit s rest m h))

pub read_int :
    (f m : ℕ) (z : ℤ) (rest : Bytes)
    → IsLong z
    → decode_node
        (suc f)
        (105 ∷ (decimal_int z ++ 101 ∷ rest))
        (pos (suc (length (decimal_int z) + 1) + m))
      ≡ done (be_int z) rest (pos m)
unfolding decode_node unless_empty switch kind is_end
read_int f m z rest h =
    let k = length (decimal_int z) + 1 in
    let e : k + m ≡ length (decimal_int z) + (1 + m) = omega arith in
    let inside = decode_int_emit z 101 (1 + m) rest h refl in
    rw (no_data-pos (suc k + m) (omega arith)) (
      rw (advance_emit 105 k m (decimal_int z ++ 101 ∷ rest), ◌>>◌, ◌>>=◌)
        (rw e (rw (inside, ◌>>=◌) (rw (advance_last 101 m rest, ◌>>◌, ◌>>=◌)))))

pub read_list :
    (f k m : ℕ) (s rest : Bytes) (v : Node) (vs : Items)
    → decode_items f s (pos (k + m)) ≡ done (item v vs) rest (pos m)
    → decode_node (suc f) (108 ∷ s) (pos (suc k + m)) ≡ done (be_list (item v vs)) rest (pos m)
unfolding decode_node unless_empty switch kind
read_list f k m s rest v vs h =
    rw (no_data-pos (suc k + m) (omega arith))
      (rw (advance_emit 108 k m s, ◌>>◌, ◌>>=◌) (rw (h, ◌>>=◌)))

pub read_item :
    (f : ℕ) (n n' n'' : ℤ) (s s' s'' : Bytes) (v : Node) (vs : Items)
    → Opens s
    → decode_node f s n ≡ done v s' n'
    → decode_items f s' n' ≡ done vs s'' n''
    → decode_items (suc f) s n ≡ done (item v vs) s'' n''
read_item f n n' n'' s s' s'' v vs o h hs =
    rw (decode_items-Opens f s n o) (rw (h, ◌>>=◌) (rw (hs, ◌>>=◌)))

pub read_dict :
    (f k m : ℕ) (s rest : Bytes) (o : Option Bytes) (v : Node) (vs : Fields)
    → decode_fields f s (pos (k + m)) ≡ done (field o v vs) rest (pos m)
    → decode_node (suc f) (100 ∷ s) (pos (suc k + m)) ≡ done (be_dict (field o v vs)) rest (pos m)
unfolding decode_node unless_empty switch kind
read_dict f k m s rest o v vs h =
    rw (no_data-pos (suc k + m) (omega arith))
      (rw (advance_emit 100 k m s, ◌>>◌, ◌>>=◌) (rw (h, ◌>>=◌)))

pub read_field :
    (f : ℕ) (n n' n'' n3 : ℤ) (s s' s'' s3 : Bytes) (k : Option Bytes) (v : Node) (vs : Fields)
    → Starts s
    → decode_str s n ≡ done k s' n'
    → decode_node f s' n' ≡ done v s'' n''
    → decode_fields f s'' n'' ≡ done vs s3 n3
    → decode_fields (suc f) s n ≡ done (field k v vs) s3 n3
read_field f n n' n'' n3 s s' s'' s3 k v vs o hk h hs =
    rw (decode_fields-Starts f s n o) (rw (hk, ◌>>=◌) (rw (h, ◌>>=◌) (rw (hs, ◌>>=◌))))

pub read_end_items :
    (f m : ℕ) (rest : Bytes)
    → decode_items (suc f) (101 ∷ rest) (pos (1 + m)) ≡ done no_items rest (pos m)
unfolding decode_items items_round is_end
read_end_items f m rest = rw (advance_last 101 m rest, ◌>>◌, ◌>>=◌)

pub read_end_fields :
    (f m : ℕ) (rest : Bytes)
    → decode_fields (suc f) (101 ∷ rest) (pos (1 + m)) ≡ done no_fields rest (pos m)
unfolding decode_fields fields_round is_end
read_end_fields f m rest = rw (advance_last 101 m rest, ◌>>◌, ◌>>=◌)

pub Starts-Opens : (s : Bytes) → Starts s → Opens s
Starts-Opens [] h = h
Starts-Opens (c ∷ s) h = is_end_digit c h
