-- ===== src/Wire/Messages/Message.antt =====
-- The messages as this client sends them, and what each one is to do at the receiver.
use mathlib.Core.List.{append_assoc}
use simpletorrent_nju.Base.{
  ℕ, ◌+◌, ◌^◌, ◌<◌, ◌≡◌, refl, ap, ◌∙◌, List, [], ◌∷◌, ◌++◌, Bytes, ℤ, pos, IsInt, i32, ◌-ℤ◌, ◌+ℤ◌,
  i32-pos, length, arith,
}
use simpletorrent_nju.Words.{reverse_byte_orderi}
use simpletorrent_nju.Words.Order.{reverse-reverse}
use simpletorrent_nju.Socket.{RecvEvent}
use simpletorrent_nju.Client.{Extern, M}
use simpletorrent_nju.Wire.Send.{
  net_int, have, piece, bitfield_header, unchoke, interested, not_interested, have_message,
  bitfield_id, request, cancel, block_message, piece_message,
}
use simpletorrent_nju.Wire.Handlers.{
  handle_unchoke, handle_interested, handle_notinterested, handle_have, handle_bitfield,
  handle_request, handle_piece, handle_cancel,
}
use simpletorrent_nju.Wire.Messages.{Next, and_go_on, unless_neg}

-- The messages behind the handshake, as this client sends them.
pub data Message : Type 0 where
  unchoked : Message
  is_interested : Message
  is_not_interested : Message
  has : ℤ → Message
  bits : ℕ → Bytes → Message
  requests : ℤ → ℤ → ℤ → Message
  cancels : ℤ → ℤ → ℤ → Message
  block : ℤ → ℤ → ℕ → Bytes → Message

-- The bytes that the sending function gives to `Send`, in one call or, for a bitfield, in two.
abbrev pub sent_bytes : Message → Bytes
sent_bytes unchoked = net_int (pos 1) ++ unchoke ∷ []
sent_bytes is_interested = net_int (pos 1) ++ interested ∷ []
sent_bytes is_not_interested = net_int (pos 1) ++ not_interested ∷ []
sent_bytes (has index) = have_message index
sent_bytes (bits b bs) = bitfield_header (length (b ∷ bs)) ++ (b ∷ bs)
sent_bytes (requests index begin len) = block_message request index begin len
sent_bytes (cancels index begin len) = block_message cancel index begin len
sent_bytes (block index begin b bs) = piece_message index begin (pos (length (b ∷ bs))) (b ∷ bs)

-- The numbers are of type `int`, and so is the length of the message.
abbrev pub AreInts : Message → Type 0
AreInts (has index) = IsInt index
AreInts (bits b bs) = length (b ∷ bs) + 1 < 2 ^ 31
AreInts (requests index begin len) = IsInt index × IsInt begin × IsInt len
AreInts (cancels index begin len) = IsInt index × IsInt begin × IsInt len
AreInts (block index begin b bs) = IsInt index × IsInt begin × (length (b ∷ bs) + 9 < 2 ^ 31)
AreInts m = Unit {0}

-- What each message is to do at the receiver.
abbrev pub reaction : Extern → ℕ → ℕ → Message → List RecvEvent → M Next
reaction x connfd p unchoked = and_go_on (handle_unchoke p)
reaction x connfd p is_interested = and_go_on (handle_interested p)
reaction x connfd p is_not_interested = and_go_on (handle_notinterested p)
reaction x connfd p (has index) = and_go_on (handle_have connfd p index)
reaction x connfd p (bits b bs) =
    and_go_on (handle_bitfield connfd p (b ∷ bs) (pos (length (b ∷ bs))))
reaction x connfd p (requests index begin len) =
    unless_neg (handle_request connfd p index begin len)
reaction x connfd p (cancels index begin len) = and_go_on (handle_cancel connfd index begin len)
reaction x connfd p (block index begin b bs) =
    unless_neg (handle_piece x connfd p index begin (pos (length (b ∷ bs))) (b ∷ bs))

-- The length prefix and the part behind it.
abbrev pub len_of : Message → ℤ
len_of (has index) = pos 5
len_of (bits b bs) = pos (length (b ∷ bs) + 1)
len_of (requests index begin len) = pos 13
len_of (cancels index begin len) = pos 13
len_of (block index begin b bs) = i32 (pos 9 +ℤ pos (length (b ∷ bs)))
len_of m = pos 1

abbrev pub id_of : Message → ℕ
id_of unchoked = unchoke
id_of is_interested = interested
id_of is_not_interested = not_interested
id_of (has index) = have
id_of (bits b bs) = bitfield_id
id_of (requests index begin len) = request
id_of (cancels index begin len) = cancel
id_of (block index begin b bs) = piece

abbrev pub body_of : Message → Bytes
body_of (has index) = net_int index
body_of (bits b bs) = b ∷ bs
body_of (requests index begin len) = net_int index ++ (net_int begin ++ net_int len)
body_of (cancels index begin len) = net_int index ++ (net_int begin ++ net_int len)
body_of (block index begin b bs) = net_int index ++ (net_int begin ++ (b ∷ bs))
body_of m = []

pub sent_bytes_parts : (m : Message) → sent_bytes m ≡ net_int (len_of m) ++ (id_of m ∷ body_of m)
unfolding bitfield_header have_message block_message piece_message
sent_bytes_parts (bits b bs) =
    append_assoc (net_int (pos (length (b ∷ bs) + 1))) (bitfield_id ∷ []) (b ∷ bs)
sent_bytes_parts unchoked = refl
sent_bytes_parts is_interested = refl
sent_bytes_parts is_not_interested = refl
sent_bytes_parts (has index) = refl
sent_bytes_parts (requests index begin len) = refl
sent_bytes_parts (cancels index begin len) = refl
sent_bytes_parts (block index begin b bs) = refl

pub assoc₃ : (a b c d : Bytes) → (a ++ (b ++ c)) ++ d ≡ a ++ (b ++ (c ++ d))
assoc₃ a b c d = append_assoc a (b ++ c) d ∙ ap (◌++◌ a) (append_assoc b c d)

pub x_len_lem : (n : ℕ) → n + 1 < 2 ^ 31 → i32 (pos (n + 1) -ℤ pos 1) ≡ pos n
unfolding ◌-ℤ◌
x_len_lem n h = ap i32 (ground arith) ∙ i32-pos n (omega arith)

pub message_len_lem : (n : ℕ) → n + 9 < 2 ^ 31 → i32 (pos 9 +ℤ pos n) ≡ pos (n + 9)
unfolding ◌+ℤ◌
message_len_lem n h = ap i32 (ground arith) ∙ i32-pos (n + 9) h

pub block_len_lem : (n : ℕ) → n + 9 < 2 ^ 31 → i32 (i32 (pos 9 +ℤ pos n) -ℤ pos 9) ≡ pos n
unfolding ◌-ℤ◌
block_len_lem n h = rw (message_len_lem n h) (ap i32 (ground arith) ∙ i32-pos n (omega arith))

pub reverse_eq : (l v : ℤ) → IsInt l → v ≡ reverse_byte_orderi l → reverse_byte_orderi v ≡ l
reverse_eq l v h e = ap reverse_byte_orderi e ∙ reverse-reverse l h
