-- ===== src/Tracker/Announce.antt =====
-- parse_announce_url.c: host and port of the tracker.
pub mod Url
use simpletorrent_nju.Base.{
  ℕ, zero, suc, ◌+◌, ◌-◌, ltb, leb, ◌==◌, if◌then◌else◌, Bool, true, false, List, [], ◌∷◌, ◌++◌,
  Option, none, some, Bytes, ℤ, pos, length, take, drop,
}
use simpletorrent_nju.Client.{Extern}
use simpletorrent_nju.Decimal.{atoi}
use simpletorrent_nju.Text.{strstr, until_zero}
use simpletorrent_nju.Wire.Handshake.{codes}
use simpletorrent_nju.Tracker.Run.{Run, ok, fault, pure, ◌>>=◌, access}

-- `announce_url_t`; `overruns` is the number of bytes that were written behind the end of an array.
pub record AnnounceUrl : Type 0 where
  pub hostname : Bytes
  pub port : ℤ
  pub overruns : ℕ

-- What stands before the last colon and behind it. Without a colon the loop leaves the text.
unfoldable pub last_colon : Bytes → Option (Bytes × Bytes)
last_colon [] = none
last_colon (c ∷ s) = elim (last_colon s) [
  | none ↦ if c == 58 then some ([], s) else none
  | some r ↦ some (c ∷ r.0, r.1)
]

-- `port_str` has 6 bytes. The terminating zero goes to `port_len + 1`, behind a byte that is not
-- written.
unfoldable pub port_of : Extern → Bytes → Option ℤ
port_of x digits = atoi (digits ++ x.junk (length digits) ∷ 0 ∷ [])

unfoldable pub port_overruns : ℕ → ℕ
port_overruns port_len = (port_len - 6) + (if ltb 4 port_len then 1 else 0)

-- The host in `url_len` bytes from `p` on. `url` has `url_len + 1` bytes, and the zero goes to
-- `url_len + 1`, behind a byte that is not written.
unfoldable pub host_of : Extern → ℕ → Bytes → Bytes
host_of x url_len p = until_zero (take url_len p ++ x.junk url_len ∷ 0 ∷ [])

-- The length of the host and where it begins; with `http://` somewhere in the text, seven less and
-- seven later. `none` is a length that is negative.
unfoldable pub host_part : Bytes → ℕ → Option (ℕ × Bytes)
host_part announce url_len = elim (strstr announce (codes "http://")) [
  | none ↦ some (url_len, announce)
  | some found ↦ if leb 7 url_len then some (url_len - 7, drop 7 announce) else none
]

unfoldable pub parse_announce_url : Extern → Bytes → Run AnnounceUrl
parse_announce_url x announce = do
  found ← access (strstr announce (codes "/announce"))
  split ← access (last_colon found.0)
  port ← access (port_of x split.1)
  host ← access (host_part announce (length split.0))
  pure (record {
    hostname = host_of x host.0 host.1;
    port = port;
    overruns = port_overruns (length split.1) + 1;
  })
