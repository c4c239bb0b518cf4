-- ===== src/Tracker/Http/Answer.antt =====
-- An HTTP answer with its length, as the tracker sends it, is taken off the connection.
use mathlib.Core.List.{append_assoc, append-nil}
use simpletorrent_nju.Base.{
  ◌≡◌, refl, ap, ◌∙◌, ℕ, zero, suc, ◌+◌, ◌-◌, ◌/◌, ◌%◌, ◌^◌, ◌≤◌, ◌<◌, ◌==◌, ltb, leb, Bool, true,
  false, ◌||◌, if◌then◌else◌, Bool-cases, inl, inr, List, [], ◌∷◌, ◌++◌, some, Bytes, ℤ, pos,
  negsuc, i32-pos, arith, length, replicate, length-append, take-append,
}
use simpletorrent_nju.Socket.{RecvEvent}
use simpletorrent_nju.Socket.Stream.{stream, IsReliable}
use simpletorrent_nju.Pool.{strncmp_eq}
use simpletorrent_nju.Decimal.{digits, decimal, decimal_int, strtoll, atoi}
use simpletorrent_nju.Decimal.Laws.{strtoll-decimal_int}
use simpletorrent_nju.Text.{starts_with, strstr}
use simpletorrent_nju.Wire.Handshake.{codes}
use simpletorrent_nju.Tracker.Run.{ok, ◌>>=◌}
use simpletorrent_nju.Tracker.Http.{
  is_ok_line, status_line, other_line, in_buffer, parse_round, max_line, readn, content_length,
  parse_header, read_content, preprocess_tracker_response,
}
use simpletorrent_nju.Tracker.Http.Header.{
  readn-Got, ReadsHeader, reads_byte, reads_break, reads_end,
}

-- No byte is a carriage return or a zero.
unfoldable pub plain_text : Bytes → Bool
plain_text [] = true
plain_text (c ∷ s) = let more = plain_text s in if c == 13 || c == 0 then false else more

plain_head :
    (c : ℕ) (s : Bytes)
    → plain_text (c ∷ s) ≡ true
    → ((c == 13) ≡ false) × ((c == 0) ≡ false) × (plain_text s ≡ true)
unfolding plain_text
plain_head c s h = ground arith

plain_append :
    (xs ys : Bytes) → plain_text xs ≡ true → plain_text ys ≡ true → plain_text (xs ++ ys) ≡ true
unfolding plain_text
plain_append [] ys h k = k
plain_append (x ∷ xs) ys h k =
    let (a, b, more) = plain_head x xs h in
    let rest = plain_append xs ys more k in ground (arith, rest)

plain_digits : (f n : ℕ) (out : Bytes) → plain_text out ≡ true → plain_text (digits f n out) ≡ true
unfolding digits
plain_digits zero n out h = h
plain_digits (suc f) n out h = elim (Bool-cases (ltb n 10)) [
  | inl e ↦ rw e (unfold plain_text in ground arith)
  | inr e ↦ rw e (plain_digits f (n / 10) ((48 + n % 10) ∷ out) (unfold plain_text in ground arith))
]

plain_decimal : (n : ℕ) → plain_text (decimal n) ≡ true
unfolding decimal plain_text
plain_decimal n = plain_digits 20 n [] refl

strstr_line :
    (line t : Bytes)
    → plain_text line ≡ true
    → strstr (line ++ 13 ∷ 10 ∷ t) (codes "\r\n") ≡ some (line, 13 ∷ 10 ∷ t)
unfolding strstr starts_with
strstr_line [] t h = refl
strstr_line (c ∷ s) t h =
    let (a, b, more) = plain_head c s h in let rest = strstr_line s t more in ground (arith, rest)

reads_line :
    (pre : Bytes) (f room : ℕ) (t head s : Bytes)
    → plain_text pre ≡ true
    → length pre ≤ room
    → ReadsHeader f (room - length pre) t head s
    → ReadsHeader (length pre + f) room (pre ++ t) (pre ++ head) s
reads_line [] f room t head s h fits more =
    let e : 0 + f ≡ f = omega arith in
    let e' : room - 0 ≡ room = omega arith in rw e (rw e' at more)
reads_line (c ∷ pre) f room t head s h fits more =
    let (a, b, others) = plain_head c pre h in
    let e : suc (length pre) + f ≡ suc (length pre + f) = omega arith in
    let e' : room - suc (length pre) ≡ room - 1 - length pre = omega arith in
    rw e (
      reads_byte (length pre + f) room c (pre ++ t) (pre ++ head) s a (ground arith)
        (reads_line pre f (room - 1) t head s others (omega arith) (rw e' at more)))

length-digits_lt :
    (f j n : ℕ) (out : Bytes) → n < 10 ^ j → 0 < j → length (digits f n out) ≤ j + length out
unfolding digits
length-digits_lt zero j n out h p = omega arith
length-digits_lt (suc f) zero n out h p = absurd (omega arith)
length-digits_lt (suc f) (suc zero) n out h p =
    let e : ltb n 10 ≡ true = ground arith in rw e (omega arith)
length-digits_lt (suc f) (suc (suc j)) n out h p = elim (Bool-cases (ltb n 10)) [
  | inl e ↦ rw e (omega arith)
  | inr e ↦ rw e (
      omega (
        arith,
        length-digits_lt f (suc j) (n / 10) ((48 + n % 10) ∷ out) (omega arith) (omega arith),
      ))
]

length-decimal_lt : (n : ℕ) → n ≤ 4096 → length (decimal n) ≤ 4
unfolding decimal
length-decimal_lt n h = omega (arith, length-digits_lt 20 4 n [] (omega arith) (omega arith))

atoi-decimal : (n : ℕ) (rest : Bytes) → n ≤ 4096 → atoi (decimal n ++ 0 ∷ rest) ≡ some (pos n)
unfolding atoi
atoi-decimal n rest h =
    let read : strtoll (decimal n ++ 0 ∷ rest) ≡ some (pos n, 0 ∷ rest) =
      unfold decimal_int in strtoll-decimal_int (pos n) 0 rest (ground arith) refl in
    rw (read, atoi) (ap some (i32-pos n (omega arith)))

abbrev length_line : ℕ → Bytes
length_line n = codes "Content-Length: " ++ decimal n

-- The header of an answer with `n` bytes.
abbrev pub http_header : ℕ → Bytes
http_header n = codes "HTTP/1.0 200 OK\r\nContent-Length: " ++ (decimal n ++ codes "\r\n\r\n")

content_length-length_line : (n : ℕ) → n ≤ 4096 → content_length (length_line n) ≡ ok (pos n)
unfolding content_length
content_length-length_line n h =
    let short = length-decimal_lt n h in
    let long : leb 16 (length (length_line n)) ≡ true = ground arith in
    let small : leb (length (decimal n)) 20 ≡ true = ground arith in
    let e : 20 - length (decimal n) ≡ suc (19 - length (decimal n)) = omega arith in
    rw long (rw small (rw e (rw (atoi-decimal n (replicate (19 - length (decimal n)) 0) h))))

module _ (f c : ℕ) (line t : Bytes) (len : ℤ) where
  parse_status_line :
      plain_text (c ∷ line) ≡ true
      → leb (length (c ∷ line)) 80 ≡ true
      → is_ok_line (c ∷ line) ≡ true
      → parse_header (suc f) true (c ∷ line ++ 13 ∷ 10 ∷ t) len ≡ parse_header f false t len
  unfolding parse_header parse_round in_buffer status_line
  parse_status_line plain fits good = rw (strstr_line (c ∷ line) t plain) (rw fits (rw good))

  parse_length_line :
      (n : ℤ)
      → plain_text (c ∷ line) ≡ true
      → leb (length (c ∷ line)) 80 ≡ true
      → starts_with (codes "Content-Length") (c ∷ line) ≡ true
      → content_length (c ∷ line) ≡ ok n
      → parse_header (suc f) false (c ∷ line ++ 13 ∷ 10 ∷ t) len ≡ parse_header f false t n
  unfolding parse_header parse_round in_buffer other_line
  parse_length_line n plain fits named number =
      rw (strstr_line (c ∷ line) t plain) (rw fits (rw named (rw (number, ◌>>=◌))))

parse_end :
    (f : ℕ) (t : Bytes) (len : ℤ) → parse_header (suc f) false (13 ∷ 10 ∷ t) len ≡ ok (some len)
unfolding parse_header parse_round
parse_end f t len = rw (strstr_line [] t (unfold plain_text in refl))

parse_header-http_header :
    (n : ℕ)
    → n ≤ 4096
    → parse_header (length (http_header n)) true (http_header n) (negsuc 0) ≡ ok (some (pos n))
parse_header-http_header n h =
    let behind = 13 ∷ 10 ∷ [] in
    let plain =
      plain_append (codes "Content-Length: ") (decimal n) (unfold plain_text in refl)
        (plain_decimal n) in
    let short = length-decimal_lt n h in
    let fits : leb (length (length_line n)) 80 ≡ true = ground arith in
    parse_status_line _ 72 (codes "TTP/1.0 200 OK") (length_line n ++ 13 ∷ 10 ∷ behind) (negsuc 0)
      (unfold plain_text in refl) refl (unfold is_ok_line starts_with in refl)
    ∙ (parse_length_line _ 67 (codes "ontent-Length: " ++ decimal n) behind (negsuc 0) (pos n) plain
          fits (unfold starts_with in refl) (content_length-length_line n h)
        ∙ parse_end _ [] (pos n))

-- the header of an answer is read, and its content is left
reads_http_header :
    (n : ℕ) (t : Bytes)
    → n ≤ 4096
    → ReadsHeader (max_line + 1) max_line (http_header n ++ t) (http_header n) t
reads_http_header n t h =
    let k = length (decimal n) in
    let name = codes "ntent-Length: " in
    let short : k ≤ 4 = length-decimal_lt n h in
    let size : length (name ++ decimal n) ≡ 14 + k = length-append name (decimal n) in
    let last =
      reads_end (4066 - k) (4077 - length (name ++ decimal n)) t (ground (arith, size, short)) in
    let plain = plain_append name (decimal n) (unfold plain_text in refl) (plain_decimal n) in
    let line =
      reads_line (name ++ decimal n) (suc (4066 - k)) 4077 (13 ∷ 10 ∷ 13 ∷ 10 ∷ t)
        (13 ∷ 10 ∷ 13 ∷ 10 ∷ []) t plain (omega (arith, size, short)) last in
    let broken =
      reads_break (length (name ++ decimal n) + suc (4066 - k)) 4081 10 67 111
        ((name ++ decimal n) ++ 13 ∷ 10 ∷ 13 ∷ 10 ∷ t)
        ((name ++ decimal n) ++ 13 ∷ 10 ∷ 13 ∷ 10 ∷ []) t (unfold strncmp_eq in refl) refl line in
    let first =
      reads_line (codes "HTTP/1.0 200 OK") (suc (length (name ++ decimal n) + suc (4066 - k))) 4096
        (13 ∷ 10 ∷ 67 ∷ 111 ∷ ((name ++ decimal n) ++ 13 ∷ 10 ∷ 13 ∷ 10 ∷ t))
        (13 ∷ 10 ∷ 67 ∷ 111 ∷ ((name ++ decimal n) ++ 13 ∷ 10 ∷ 13 ∷ 10 ∷ [])) t
        (unfold plain_text in refl) (omega arith) broken in
    let fuel : 15 + suc (length (name ++ decimal n) + suc (4066 - k)) ≡ 4097 =
      omega (arith, size, short) in
    let text : (decimal n ++ codes "\r\n\r\n") ++ t ≡ decimal n ++ 13 ∷ 10 ∷ 13 ∷ 10 ∷ t =
      append_assoc (decimal n) (codes "\r\n\r\n") t in
    rw text (rw fuel at first)

read_content-body :
    (inbox : List RecvEvent) (body more : Bytes)
    → IsReliable inbox
    → length body ≤ 4096
    → stream inbox ≡ body ++ more
    → read_content inbox (pos (length body))
      ≡ ok (some (record { size = pos (length body); data_bytes = body }))
unfolding read_content
read_content-body inbox body more h fits e =
    let got = readn-Got inbox (length body) (body ++ more) h e in
    let bytes : (readn inbox (pos (length body))).bytes ≡ body =
      got.bytes ∙ take-append body more in
    let positive : (length body + 1 == 0) ≡ false = ground arith in
    let room : leb (length body) 4096 ≡ true = ground arith in
    let none_missing : length body - length body ≡ 0 = omega arith in
    rw positive (
      rw got.count.1 (
        rw room (
          rw bytes (
            rw none_missing (
              ap (λ b. ok (some (record { size = pos (length body); data_bytes = b })))
                (append-nil body))))))

-- Where no recv fails and the tracker sends `HTTP/1.0 200 OK`, the length and at most 4096 bytes, then
-- however the network cuts the answer up, these bytes are returned, with their number.
pub preprocess_tracker_response-http_header :
    (inbox : List RecvEvent) (body more : Bytes)
    → IsReliable inbox
    → length body ≤ 4096
    → stream inbox ≡ http_header (length body) ++ (body ++ more)
    → preprocess_tracker_response inbox
      ≡ ok (some (record { size = pos (length body); data_bytes = body }))
unfolding preprocess_tracker_response
preprocess_tracker_response-http_header inbox body more h fits e =
    let n = length body in
    let (rest, read, still, left) = reads_http_header n (body ++ more) fits inbox h e in
    let parsed = parse_header-http_header n fits in
    let content = read_content-body rest body more still fits left in
    rw (read, ◌>>=◌) (rw (parsed, ◌>>=◌) content)
