-- ===== src/Bencode/Values.antt =====
-- Bencoded values as the protocol defines them, how they are written, and the nodes that stand for
-- them. Lists and dictionaries have a first element here.
use simpletorrent_nju.Base.{◌^◌, ◌<◌, [], ◌∷◌, ◌++◌, some, Bytes, ℤ, length}
use simpletorrent_nju.Decimal.{decimal, decimal_int}
use simpletorrent_nju.Decimal.Laws.{IsLong}
use simpletorrent_nju.Bencode.{
  Node, Items, Fields, be_str, be_int, be_list, be_dict, no_items, item, no_fields, field,
}

mutual
  pub data Value : Type 0 where
    str : Bytes → Value
    int : ℤ → Value
    list : Value → Values → Value
    dict : Bytes → Value → Entries → Value

  pub data Values : Type 0 where
    no_values : Values
    value : Value → Values → Values

  pub data Entries : Type 0 where
    no_entries : Entries
    entry : Bytes → Value → Entries → Entries

unfoldable pub emit_str : Bytes → Bytes
emit_str s = decimal (length s) ++ 58 ∷ s

unfoldable mutual
  pub emit : Value → Bytes
  emit (str s) = emit_str s
  emit (int z) = 105 ∷ (decimal_int z ++ 101 ∷ [])
  emit (list v vs) = 108 ∷ (emit v ++ emit_values vs)
  emit (dict k v es) = 100 ∷ (emit_str k ++ (emit v ++ emit_entries es))

  pub emit_values : Values → Bytes
  emit_values no_values = 101 ∷ []
  emit_values (value v vs) = emit v ++ emit_values vs

  pub emit_entries : Entries → Bytes
  emit_entries no_entries = 101 ∷ []
  emit_entries (entry k v es) = emit_str k ++ (emit v ++ emit_entries es)

unfoldable mutual
  pub node_of : Value → Node
  node_of (str s) = be_str (some s)
  node_of (int z) = be_int z
  node_of (list v vs) = be_list (item (node_of v) (items_of vs))
  node_of (dict k v es) = be_dict (field (some k) (node_of v) (fields_of es))

  pub items_of : Values → Items
  items_of no_values = no_items
  items_of (value v vs) = item (node_of v) (items_of vs)

  pub fields_of : Entries → Fields
  fields_of no_entries = no_fields
  fields_of (entry k v es) = field (some k) (node_of v) (fields_of es)

-- Every number and every length is a `long long`.
unfoldable mutual
  pub IsSized : Value → Type 0
  IsSized (str s) = length s < 2 ^ 63
  IsSized (int z) = IsLong z
  IsSized (list v vs) = IsSized v × AreSized vs
  IsSized (dict k v es) = (length k < 2 ^ 63) × (IsSized v × EntriesSized es)

  pub AreSized : Values → Type 0
  AreSized no_values = Unit
  AreSized (value v vs) = IsSized v × AreSized vs

  pub EntriesSized : Entries → Type 0
  EntriesSized no_entries = Unit
  EntriesSized (entry k v es) = (length k < 2 ^ 63) × (IsSized v × EntriesSized es)
