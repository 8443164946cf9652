-- ===== src/Rpc/Marshall/Wire.antt =====
-- The types that the program marshals, closed under vectors, pairs and maps (the operators of rpc/rpc.cc
-- and the templates of rpc/marshall.h), each with its own pair of operators.
use ds.Common.{ℕ, ◌≤◌, ◌<◌, ◌^◌, ◌≡◌, Bool, List, Bytes, Eq, nat_Eq, bytes_Eq, Map}
use ds.Rpc.Marshall.{Marshall, Unmarshall, Memory, marshall, unmarshall}
use ds.Rpc.Marshall.Codec.{Codec}
use ds.Rpc.Marshall.Basic.{bool_codec, u8_codec, u16_codec, u32_codec, u64_codec, string_codec}
use ds.Rpc.Marshall.Compound.{vector_codec, pair_codec, get-put}
use ds.Rpc.Marshall.Entries.{map_codec}

-- The types of the keys of maps.
pub data KeyType : Type 0 where
  int_key long_key string_key : KeyType

pub data WireType : Type 0 where
  bool char short int long string : WireType
  vector : WireType → WireType
  pair : WireType → WireType → WireType
  map : KeyType → WireType → WireType

abbrev pub Key : KeyType → Type 0
Key int_key = ℕ
Key long_key = ℕ
Key string_key = Bytes

abbrev pub key_Eq : (k : KeyType) → Eq (Key k)
key_Eq int_key = nat_Eq
key_Eq long_key = nat_Eq
key_Eq string_key = bytes_Eq

abbrev pub key_codec : (k : KeyType) → Codec (Key k)
key_codec int_key = u32_codec
key_codec long_key = u64_codec
key_codec string_key = string_codec

-- The values of a type; an integer is its bit pattern.
abbrev pub Value : WireType → Type 0
Value bool = Bool
Value char = ℕ
Value short = ℕ
Value int = ℕ
Value long = ℕ
Value string = Bytes
Value (vector w) = List (Value w)
Value (pair v w) = Value v × Value w
Value (map k w) = Map (Key k) (Value w)

-- The operators of each type: `put_u32` and `get_u32` for an int, `put_vector` and `get_vector` over the
-- operators of the elements for a vector, and so on.
abbrev pub codec_of : (w : WireType) → Codec (Value w)
codec_of bool = bool_codec
codec_of char = u8_codec
codec_of short = u16_codec
codec_of int = u32_codec
codec_of long = u64_codec
codec_of string = string_codec
codec_of (vector w) = vector_codec (codec_of w)
codec_of (pair v w) = pair_codec (codec_of v) (codec_of w)
codec_of (map k w) = map_codec (key_codec k) (codec_of w) ⦃e = key_Eq k⦄

-- `m << a` and `u >> a` at a type.
unfoldable pub put_value : (w : WireType) → Marshall → Value w → Marshall
put_value w m a = (codec_of w).put m a

unfoldable pub get_value : (w : WireType) → Unmarshall → Value w × Unmarshall
get_value w u = (codec_of w).get u

-- The integers are below the bound of their width, strings, vectors and maps are shorter than 2^32, and
-- no map has a key twice.
abbrev pub FitsValue : (w : WireType) → Value w → Type 0
FitsValue w = (codec_of w).Fits

-- For each type built from bool, the integers, strings, vectors, pairs and maps: a value whose parts fit
-- their widths, marshalled into a new buffer, is read back by the operator of its type, behind the
-- header, from any buffer of less than 2^31 bytes that begins with what was written, and the reader
-- ends where the writer did.
pub get_value-put_value :
    (w : WireType) (junk : Memory) (a : Value w) (b : Memory) (sz : ℕ)
    → FitsValue w a
    → ((j : ℕ)
        → j < (put_value w (marshall junk) a).ind
        → b j ≡ (put_value w (marshall junk) a).buf j)
    → (put_value w (marshall junk) a).ind ≤ sz
    → sz < 2 ^ 31
    → get_value w (record (unmarshall b sz) { ind = 24 })
      ≡ (a, record (unmarshall b sz) { ind = (put_value w (marshall junk) a).ind })
unfolding put_value get_value
get_value-put_value w junk a b sz f same room small =
    get-put (codec_of w) junk a b sz f same room small
