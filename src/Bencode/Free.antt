-- ===== src/Bencode/Free.antt =====
-- `be_str_len`.
use simpletorrent_nju.Base.{ℕ, Option, none, some, Bytes, length}

-- The length of a string node; 0 for NULL.
unfoldable pub be_str_len : Option Bytes → ℕ
be_str_len none = 0
be_str_len (some s) = length s
