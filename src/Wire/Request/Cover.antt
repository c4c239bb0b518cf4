-- ===== src/Wire/Request/Cover.antt =====
-- The blocks that `request_a_piece` asks for.
use Prim.Native.Nat.{min}
use simpletorrent_nju.Base.{
  ℕ, zero, suc, ◌+◌, ◌-◌, ◌*◌, ◌/◌, ◌^◌, ◌<◌, ◌≤◌, ◌≡◌, refl, ap, ◌∙◌, ltb, List, [], ◌∷◌, pos,
  ◌-ℤ◌, i32, i32-pos, arith, subst, dec_lt, lt→ltb, ltb-false,
}
use simpletorrent_nju.Wire.Request.{passes_end, rest_of_file, sub_requests}

-- The blocks are not empty, each one begins where the last one ends, and they reach from `b` to `e`.
abbrev pub Tiles : ℕ → List (ℕ × ℕ) → ℕ → Type 0
Tiles b [] e = b ≡ e
Tiles b ((begin, len) ∷ blocks) e = (begin ≡ b) × (0 < len) × Tiles (b + len) blocks e

module _ (size index len : ℕ) where
  passes_end_lem :
      (b s : ℕ)
      → index * len + b + s < 2 ^ 31
      → passes_end size index len b s ≡ ltb size (index * len + b + s)
  unfolding passes_end
  passes_end_lem b s h = rw (i32-pos (index * len + b + s) h) (ground arith)

  rest_of_file_lem :
      (b : ℕ)
      → index * len + b ≤ size
      → size < 2 ^ 31
      → rest_of_file size index len b ≡ pos (size - index * len - b)
  unfolding rest_of_file ◌-ℤ◌
  rest_of_file_lem b h l = ap i32 (ground arith) ∙ i32-pos (size - index * len - b) (omega arith)

  sub_requests_at_end :
      (n b s : ℕ)
      → index * len + b ≡ size
      → 0 < s
      → size + s < 2 ^ 31
      → sub_requests n size index len b s ≡ []
  unfolding sub_requests
  sub_requests_at_end zero b s e h l = refl
  sub_requests_at_end (suc n) b s e h l = ground (arith, passes_end_lem b s, rest_of_file_lem b)

  -- The end of the blocks where the next one passes the end of the file.
  min_past :
      (n b s : ℕ)
      → index * len + b ≤ size
      → size < index * len + b + s
      → min (b + suc n * s) (size - index * len) ≡ size - index * len
  min_past n b s h past = omega arith

  Tiles-past :
      (n b s k : ℕ)
      → index * len + b ≤ size
      → size + s < 2 ^ 31
      → size < index * len + b + s
      → rest_of_file size index len b ≡ pos k
      → size - index * len - b ≡ k
      → Tiles b (sub_requests (suc n) size index len b s) (size - index * len)
  unfolding sub_requests
  Tiles-past n b s zero h l past e f =
      rw (passes_end_lem b s (omega arith), lt→ltb _ _ past, e) (omega arith)
  Tiles-past n b s (suc k) h l past e f =
      rw (passes_end_lem b s (omega arith), lt→ltb _ _ past, e)
        (
          refl,
          omega arith,
          rw (sub_requests_at_end n (b + suc k) (suc k) (omega arith) (omega arith) (omega arith))
              (omega arith),
        )

  sub_requests-Tiles :
      (n b s : ℕ)
      → index * len + b ≤ size
      → 0 < s
      → size + s < 2 ^ 31
      → Tiles b (sub_requests n size index len b s) (min (b + n * s) (size - index * len))
  unfolding sub_requests
  sub_requests-Tiles zero b s h p l = omega arith
  sub_requests-Tiles (suc n) b s h p l = elim (dec_lt size (index * len + b + s)) [
    | yes past ↦ rw (min_past n b s h past) (
        Tiles-past n b s (size - index * len - b) h l past (rest_of_file_lem b h (omega arith))
          refl)
    | no inside ↦
        rw (passes_end_lem b s (omega arith), ltb-false size (index * len + b + s) inside)
          (
            refl,
            p,
            subst (Tiles (b + s) (sub_requests n size index len (b + s) s))
                (ap (λ (t : ℕ). min t (size - index * len)) (omega arith))
                (sub_requests-Tiles n (b + s) s (omega arith) p l),
          )
  ]

-- The requests for a piece that begins inside the file, of a length of at least 4, where size
-- and length together are less than 2^31: they lie one behind the other from the start of the
-- piece, none is empty, and together they reach to the end of the file where that comes within
-- four times a quarter of the length, and else to that.
pub request_a_piece-Tiles :
    (size index len : ℕ)
    → index * len ≤ size
    → 4 ≤ len
    → size + len < 2 ^ 31
    → Tiles 0 (sub_requests 4 size index len 0 (len / 4)) (min (4 * (len / 4)) (size - index * len))
request_a_piece-Tiles size index len h four l =
    subst (Tiles 0 (sub_requests 4 size index len 0 (len / 4)))
      (ap (λ (t : ℕ). min t (size - index * len)) (omega arith))
      (sub_requests-Tiles size index len 4 0 (len / 4) (omega arith) (omega arith) (omega arith))
