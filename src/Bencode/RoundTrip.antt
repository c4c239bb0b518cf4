-- ===== src/Bencode/RoundTrip.antt =====
-- The decoder reads back what was written.
use mathlib.Core.List.{append_assoc, append-nil}
use native.Mathlib.Nat.{add-zero}
use simpletorrent_nju.Base.{
  ◌≡◌, refl, ℕ, zero, suc, ◌+◌, ◌<◌, [], ◌∷◌, ◌++◌, some, Bytes, ℤ, pos, arith, length,
  length-append,
}
use simpletorrent_nju.Decimal.{decimal_int}
use simpletorrent_nju.Bencode.{
  done, Decoder, decode_str, is_end, be_decoden, returns, decode_node, decode_items, decode_fields,
}
use simpletorrent_nju.Bencode.Steps.{
  Opens, emit_str-Starts, length-emit_str_pos, read_str, read_int, read_list, read_item, read_dict,
  read_field, read_end_items, read_end_fields, Starts-Opens, decode_str_emit,
}
use simpletorrent_nju.Bencode.Values.{
  Value, Values, Entries, str, int, list, dict, no_values, value, no_entries, entry, emit_str, emit,
  emit_values, emit_entries, node_of, items_of, fields_of, IsSized, AreSized, EntriesSized,
}

-- nothing that is written begins like the end of a list
emit-Opens : (v : Value) (rest : Bytes) → Opens (emit v ++ rest)
unfolding emit is_end
emit-Opens (str s) rest = Starts-Opens _ (emit_str-Starts s rest)
emit-Opens (int z) rest = refl
emit-Opens (list v vs) rest = refl
emit-Opens (dict k v es) rest = refl

length-emit_pos : (v : Value) → 0 < length (emit v)
unfolding emit
length-emit_pos (str s) = length-emit_str_pos s
length-emit_pos (int z) = omega arith
length-emit_pos (list v vs) = omega arith
length-emit_pos (dict k v es) = omega arith

length-emit_values_pos : (vs : Values) → 0 < length (emit_values vs)
unfolding emit
length-emit_values_pos no_values = omega arith
length-emit_values_pos (value v vs) =
    omega (arith, length-append (emit v) (emit_values vs), length-emit_pos v)

length-emit_entries_pos : (es : Entries) → 0 < length (emit_entries es)
unfolding emit
length-emit_entries_pos no_entries = omega arith
length-emit_entries_pos (entry k v es) =
    omega (arith, length-append (emit_str k) (emit v ++ emit_entries es), length-emit_str_pos k)

-- With fuel above its length, `decode` reads `a` off `printed` and leaves what follows.
abbrev Reads : {A : Type 0} → (ℕ → Decoder A) → Bytes → A → Type 0
Reads decode printed a =
    (f m n : ℕ) (rest : Bytes)
    → length printed < f
    → n ≡ length printed + m
    → decode f (printed ++ rest) (pos n) ≡ done a rest (pos m)

abbrev ReadsNode : Value → Type 0
ReadsNode v = IsSized v → Reads decode_node (emit v) (node_of v)

abbrev ReadsItems : Values → Type 0
ReadsItems vs = AreSized vs → Reads decode_items (emit_values vs) (items_of vs)

abbrev ReadsFields : Entries → Type 0
ReadsFields es = EntriesSized es → Reads decode_fields (emit_entries es) (fields_of es)

reads_item : (v : Value) (vs : Values) → ReadsNode v → ReadsItems vs → ReadsItems (value v vs)
unfolding emit node_of IsSized
reads_item v vs ih ihs sized zero m n rest h e = absurd (omega arith)
reads_item v vs ih ihs (sized, all_sized) (suc f) m n rest h e =
    let k = length (emit_values vs) in
    let e' : n ≡ length (emit v) + (k + m) =
      omega (arith, length-append (emit v) (emit_values vs)) in
    let short : length (emit v) + k < suc f =
      omega (arith, length-append (emit v) (emit_values vs)) in
    let first =
      ih sized f (k + m) n (emit_values vs ++ rest) (omega (arith, length-emit_values_pos vs)) e' in
    let others = ihs all_sized f m (k + m) rest (omega (arith, length-emit_pos v)) refl in
    rw (append_assoc (emit v) (emit_values vs) rest) (
      read_item f (pos n) (pos (k + m)) (pos m) (emit v ++ (emit_values vs ++ rest))
        (emit_values vs ++ rest) rest (node_of v) (items_of vs)
        (emit-Opens v (emit_values vs ++ rest)) first others)

reads_entry :
    (k : Bytes) (v : Value) (es : Entries)
    → ReadsNode v
    → ReadsFields es
    → ReadsFields (entry k v es)
unfolding emit node_of IsSized
reads_entry k v es ih ihs sized zero m n rest h e = absurd (omega arith)
reads_entry k v es ih ihs (fits, (sized, all_sized)) (suc f) m n rest h e =
    let a = length (emit_str k) in
    let b = length (emit v) in
    let c = length (emit_entries es) in
    let whole : length (emit_str k ++ (emit v ++ emit_entries es)) ≡ a + (b + c) =
      rw (length-append (emit_str k) (emit v ++ emit_entries es))
        (rw (length-append (emit v) (emit_entries es))) in
    let e' : n ≡ a + (b + (c + m)) = omega (arith, whole) in
    let some_k : 0 < a = length-emit_str_pos k in
    let text = emit v ++ (emit_entries es ++ rest) in
    let key : decode_str (emit_str k ++ text) (pos n) ≡ done (some k) text (pos (b + (c + m))) =
      rw e' (decode_str_emit k text (b + (c + m)) fits) in
    let first =
      ih sized f (c + m) (b + (c + m)) (emit_entries es ++ rest) (omega (arith, whole)) refl in
    let others = ihs all_sized f m (c + m) rest (omega (arith, whole)) refl in
    rw (append_assoc (emit_str k) (emit v ++ emit_entries es) rest) (
      rw (append_assoc (emit v) (emit_entries es) rest) (
        read_field f (pos n) (pos (b + (c + m))) (pos (c + m)) (pos m) (emit_str k ++ text) text
          (emit_entries es ++ rest) rest (some k) (node_of v) (fields_of es)
          (emit_str-Starts k text) key first others))

reads_str : (s : Bytes) → ReadsNode (str s)
unfolding emit node_of IsSized
reads_str s sized zero m n rest h e = absurd (omega arith)
reads_str s sized (suc f) m n rest h e = rw e (read_str f m s rest sized)

reads_int : (z : ℤ) → ReadsNode (int z)
unfolding emit node_of IsSized
reads_int z sized zero m n rest h e = absurd (omega arith)
reads_int z sized (suc f) m n rest h e =
    let e' : n ≡ suc (length (decimal_int z) + 1) + m =
      omega (arith, length-append (decimal_int z) (101 ∷ [])) in
    rw (append_assoc (decimal_int z) (101 ∷ []) rest) (rw e' (read_int f m z rest sized))

reads_list : (v : Value) (vs : Values) → ReadsItems (value v vs) → ReadsNode (list v vs)
unfolding emit node_of IsSized
reads_list v vs ih sized zero m n rest h e = absurd (omega arith)
reads_list v vs ih sized (suc f) m n rest h e =
    let k = length (emit_values (value v vs)) in
    let inside = ih sized f m (k + m) rest (omega arith) refl in
    rw e (read_list f k m (emit_values (value v vs) ++ rest) rest (node_of v) (items_of vs) inside)

reads_dict :
    (k : Bytes) (v : Value) (es : Entries) → ReadsFields (entry k v es) → ReadsNode (dict k v es)
unfolding emit node_of IsSized
reads_dict k v es ih sized zero m n rest h e = absurd (omega arith)
reads_dict k v es ih sized (suc f) m n rest h e =
    let text = emit_entries (entry k v es) in
    let inside = ih sized f m (length text + m) rest (omega arith) refl in
    rw e
      (read_dict f (length text) m (text ++ rest) rest (some k) (node_of v) (fields_of es) inside)

reads_end_items : ReadsItems no_values
unfolding emit node_of
reads_end_items sized zero m n rest h e = absurd (omega arith)
reads_end_items sized (suc f) m n rest h e = rw e (read_end_items f m rest)

reads_end_fields : ReadsFields no_entries
unfolding emit node_of
reads_end_fields sized zero m n rest h e = absurd (omega arith)
reads_end_fields sized (suc f) m n rest h e = rw e (read_end_fields f m rest)

reads : (v : Value) → ReadsNode v
reads v = elim v as ReadsNode ReadsItems ReadsFields [
  | str s ↦ reads_str s
  | int z ↦ reads_int z
  | list (w → ih) (vs → ihs) ↦ reads_list w vs (reads_item w vs ih ihs)
  | dict k (w → ih) (es → ihs) ↦ reads_dict k w es (reads_entry k w es ih ihs)
  | no_values ↦ reads_end_items
  | value (w → ih) (vs → ihs) ↦ reads_item w vs ih ihs
  | no_entries ↦ reads_end_fields
  | entry k (w → ih) (es → ihs) ↦ reads_entry k w es ih ihs
]

-- With fuel above the length of what was written, where every number and length is a `long long`
-- and no list or dictionary is empty, the decoder reads a value off the front of any input: it
-- gives the node of the value, the input behind it and the length left, without a fault.
pub decode_node-emit :
    (v : Value) (f m : ℕ) (rest : Bytes)
    → IsSized v
    → length (emit v) < f
    → decode_node f (emit v ++ rest) (pos (length (emit v) + m)) ≡ done (node_of v) rest (pos m)
decode_node-emit v f m rest sized h = reads v sized f m (length (emit v) + m) rest h refl

-- The whole of what was written.
pub be_decoden-emit :
    (v : Value) (f : ℕ)
    → IsSized v
    → length (emit v) < f
    → be_decoden f (emit v) (pos (length (emit v))) ≡ returns (node_of v)
unfolding be_decoden
be_decoden-emit v f sized h =
    let read = decode_node-emit v f 0 [] sized h in
    let exact : decode_node f (emit v) (pos (length (emit v))) ≡ done (node_of v) [] (pos 0) =
      rw (append-nil, add-zero (length (emit v))) at read in
    rw exact
