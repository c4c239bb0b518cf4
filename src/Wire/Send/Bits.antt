-- ===== src/Wire/Send/Bits.antt =====
-- `refresh_bitfield`: the bitfield is that of the file.
use simpletorrent_nju.Base.{◌≡◌, Bytes, ℤ}
use simpletorrent_nju.Client.{Client, Extern, ok, bind_ok, modify}
use simpletorrent_nju.FileIo.{gen_bitfield}
use simpletorrent_nju.Wire.Send.{refresh_bitfield}

-- The state with a new bitfield.
abbrev pub refreshed : Bytes → ℤ → Client → Client
refreshed bits total c = record c { downloaded = total; bitfield = bits }

pub refresh_bitfield_lem :
    (x : Extern) (c : Client) (bits : Bytes) (total : ℤ)
    → gen_bitfield x c.torrent.pieces c.torrent.piece_len c.torrent.num_pieces c
      ≡ ok bits (record c { downloaded = total })
    → refresh_bitfield x c ≡ ok tt (refreshed bits total c)
unfolding refresh_bitfield
refresh_bitfield_lem x c bits total e =
    bind_ok (gen_bitfield x c.torrent.pieces c.torrent.piece_len c.torrent.num_pieces)
      (λ bits. modify λ c. record c { bitfield = bits }) c e
