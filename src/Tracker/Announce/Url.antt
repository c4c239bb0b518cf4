-- ===== src/Tracker/Announce/Url.antt =====
-- The host and the port of a URL with both.
use simpletorrent_nju.Base.{
  ◌≡◌, refl, ap, ℕ, zero, suc, ◌+◌, ◌-◌, ◌/◌, ◌%◌, ◌^◌, ◌<◌, leb, ltb, true, false, Bool-cases, inl,
  inr, [], ◌∷◌, ◌++◌, none, some, Bytes, pos, i32-pos, arith, length, take-append,
}
use simpletorrent_nju.Client.{Extern}
use simpletorrent_nju.Decimal.{is_digit, digits, decimal, decimal_int, strtoll, atoi}
use simpletorrent_nju.Decimal.Laws.{strtoll-decimal_int}
use simpletorrent_nju.Text.{starts_with, strstr, until_zero}
use simpletorrent_nju.Wire.Handshake.{codes}
use simpletorrent_nju.Tracker.Run.{ok, ◌>>=◌}
use simpletorrent_nju.Tracker.Announce.{
  last_colon, port_of, port_overruns, host_of, host_part, parse_announce_url,
}

-- no colon is among the digits of a number
digits_no_colon :
    (f n : ℕ) (out : Bytes) → last_colon out ≡ none → last_colon (digits f n out) ≡ none
unfolding digits
digits_no_colon zero n out h = h
digits_no_colon (suc f) n out h = elim (Bool-cases (ltb n 10)) [
  | inl e ↦ rw e (unfold last_colon in rw h (ground arith))
  | inr e ↦
      rw e (
        digits_no_colon f (n / 10) ((48 + n % 10) ∷ out) (unfold last_colon in rw h (ground arith)))
]

last_colon_at :
    (front behind : Bytes)
    → last_colon behind ≡ none
    → last_colon (front ++ 58 ∷ behind) ≡ some (front, behind)
unfolding last_colon
last_colon_at [] behind h = rw h
last_colon_at (c ∷ front) behind h = rw (last_colon_at front behind h)

port_of-decimal :
    (x : Extern) (n : ℕ)
    → n < 2 ^ 31
    → is_digit (x.junk (length (decimal n))) ≡ false
    → port_of x (decimal n) ≡ some (pos n)
unfolding port_of
port_of-decimal x n h stop =
    let read : strtoll (decimal n ++ x.junk (length (decimal n)) ∷ 0 ∷ [])
        ≡ some (pos n, x.junk (length (decimal n)) ∷ 0 ∷ []) =
      unfold decimal_int in
      strtoll-decimal_int (pos n) (x.junk (length (decimal n))) (0 ∷ []) (ground arith) stop in
    unfold atoi in rw (read, atoi) (ap some (i32-pos n h))

host_part-http :
    (host rest : Bytes)
    → host_part (codes "http://" ++ (host ++ rest)) (length (codes "http://" ++ host))
      ≡ some (length host, host ++ rest)
unfolding host_part strstr starts_with
host_part-http host rest =
    let e : leb 7 (length (codes "http://" ++ host)) ≡ true = ground arith in
    let e' : length (codes "http://" ++ host) - 7 ≡ length host = omega arith in rw e (rw e')

host_of-host :
    (x : Extern) (host rest : Bytes)
    → host_of x (length host) (host ++ rest) ≡ until_zero (host ++ x.junk (length host) ∷ 0 ∷ [])
unfolding host_of
host_of-host x host rest = rw (take-append host rest)

-- Where the first `/announce` of a URL stands behind the digits of its port, and the byte behind them
-- in `port_str` happens to be no digit, the port is the number, and the host is the text between
-- `http://` and the colon, but for a byte of fresh memory behind it. At least one byte is written
-- outside, two where the port has five digits.
pub parse_announce_url-http :
    (x : Extern) (host rest : Bytes) (n : ℕ)
    → n < 2 ^ 31
    → is_digit (x.junk (length (decimal n))) ≡ false
    → strstr (codes "http://" ++ (host ++ 58 ∷ (decimal n ++ rest))) (codes "/announce")
      ≡ some (codes "http://" ++ (host ++ 58 ∷ decimal n), rest)
    → parse_announce_url x (codes "http://" ++ (host ++ 58 ∷ (decimal n ++ rest)))
      ≡ ok (record {
        hostname = until_zero (host ++ x.junk (length host) ∷ 0 ∷ []);
        port = pos n;
        overruns = port_overruns (length (decimal n)) + 1;
      })
unfolding parse_announce_url
parse_announce_url-http x host rest n h stop found =
    let none_in : last_colon (decimal n) ≡ none =
      unfold decimal in digits_no_colon 20 n [] (unfold last_colon in refl) in
    let split = last_colon_at (codes "http://" ++ host) (decimal n) none_in in
    rw (found, ◌>>=◌)
      (rw (split, ◌>>=◌)
        (rw (port_of-decimal x n h stop, ◌>>=◌)
          (rw (host_part-http host (58 ∷ (decimal n ++ rest)), ◌>>=◌)
            (rw (host_of-host x host (58 ∷ (decimal n ++ rest)))))))
