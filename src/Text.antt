-- ===== src/Text.antt =====
-- What the program uses of the C library's strings. A string is the list of its bytes; a zero in it
-- ends it, and so does the end of the list.
use simpletorrent_nju.Base.{
  ℕ, ◌==◌, if◌then◌else◌, Bool, true, false, [], ◌∷◌, Option, none, some, Bytes,
}

-- `memcmp(s, text, sizeof(text) - 1) == 0`, also where `s` ends in zeros.
unfoldable pub starts_with : Bytes → Bytes → Bool
starts_with [] s = true
starts_with (t ∷ text) [] = false
starts_with (t ∷ text) (c ∷ s) = let more = starts_with text s in if t == c then more else false

abbrev pub before : ℕ → Option (Bytes × Bytes) → Option (Bytes × Bytes)
before c none = none
before c (some (front, found)) = some (c ∷ front, found)

-- `strstr(s, text)` for a text that is not empty: what stands before the first occurrence, and the
-- string from it on.
unfoldable pub strstr : Bytes → Bytes → Option (Bytes × Bytes)
strstr [] text = none
strstr (c ∷ s) text =
    let more = before c (strstr s text) in
    if starts_with text (c ∷ s) then some ([], c ∷ s) else if c == 0 then none else more

-- The string in an array: what stands before the first zero.
unfoldable pub until_zero : Bytes → Bytes
until_zero [] = []
until_zero (c ∷ s) = let more = c ∷ until_zero s in if c == 0 then [] else more
