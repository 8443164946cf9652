-- ===== src/Rpc/Marshall.antt =====
-- Marshalling of arguments and replies: `class marshall` and `class unmarshall` of rpc/marshall.h, and
-- their operators in rpc/rpc.cc. Built without RPC_CHECKSUMMING, as the Makefile does.
pub mod Memory
pub mod Capacity
pub mod Codec
pub mod Basic
pub mod Compound
pub mod Entries
pub mod Wire
pub mod Header
pub mod Bounds
use ds.Common.{
  ℕ, zero, suc, ◌+◌, ◌-◌, ◌*◌, ◌/◌, ◌%◌, ◌^◌, Bool, true, false, not, ◌&&◌, List, [], ◌∷◌, ◌++◌,
  Bytes, length, ltb, leb, nat_eq, if◌then◌else◌,
}

-- Bytes at addresses: a buffer of the heap, whose bytes are unspecified until they are written.
abbrev pub Memory : Type 0
Memory = ℕ → ℕ

abbrev pub store : Memory → ℕ → ℕ → Memory
store b i x = λ j. if nat_eq j i then x else b j

-- `memcpy` into the buffer.
unfoldable pub store_all : Memory → ℕ → Bytes → Memory
store_all b i [] = b
store_all b i (c ∷ s) = store_all (store b i c) (i + 1) s

-- `std::string(_buf + i, n)`
unfoldable pub slice : Memory → ℕ → ℕ → Bytes
slice b i zero = []
slice b i (suc n) = b i ∷ slice b (i + 1) n

-- `DEFAULT_RPC_SZ`
abbrev pub default_rpc_sz : ℕ
default_rpc_sz = 1024

-- `sizeof(rpc_sz_t)`
abbrev pub rpc_sz : ℕ
rpc_sz = 4

-- `RPC_HEADER_SZ`: the five words of a `req_header` behind the size of the message.
abbrev pub rpc_header_sz : ℕ
rpc_header_sz = 24

-- An `int` is its bit pattern, and the order of ints is that of the patterns with the sign bit turned.
abbrev pub int_lt : ℕ → ℕ → Bool
int_lt a b = ltb ((a + 2 ^ 31) % 2 ^ 32) ((b + 2 ^ 31) % 2 ^ 32)

-- `class marshall`. The capacity is an int; the position is the number of bytes before it, which is
-- the value of the int while that does not overflow, as C++ asks of `_ind += n`.
pub record Marshall : Type 0 where
  pub buf : Memory
  pub capa : ℕ
  pub ind : ℕ

-- `marshall::marshall`, in a buffer that holds anything.
unfoldable pub marshall : Memory → Marshall
marshall junk = record { buf = junk; capa = default_rpc_sz; ind = rpc_header_sz }

-- `marshall::rawbyte`. Sums and products of ints wrap around; an allocation that fails is left out.
unfoldable pub put_rawbyte : Marshall → ℕ → Marshall
put_rawbyte m x = record {
  buf = store m.buf m.ind x;
  capa = if not (int_lt m.ind m.capa) then m.capa * 2 % 2 ^ 32 else m.capa;
  ind = m.ind + 1;
}

-- `marshall::rawbytes`, with the ints of `rawbyte`.
unfoldable pub put_rawbytes : Marshall → Bytes → Marshall
put_rawbytes m p =
    let n = length p in
    record {
      buf = store_all m.buf m.ind p;
      capa =
          if int_lt m.capa ((m.ind + n) % 2 ^ 32)
          then (if int_lt n m.capa then 2 * m.capa % 2 ^ 32 else (m.capa + n) % 2 ^ 32)
          else m.capa;
      ind = m.ind + n;
    }

-- `marshall::get_content`
unfoldable pub get_content : Marshall → Bytes
unfolding slice
get_content m = slice m.buf rpc_header_sz (m.ind - rpc_header_sz)

-- `operator<<` of a bool
unfoldable pub put_bool : Marshall → Bool → Marshall
put_bool m x = put_rawbyte m (if x then 1 else 0)

-- `operator<<` of an unsigned char, and of a char
unfoldable pub put_u8 : Marshall → ℕ → Marshall
put_u8 m x = put_rawbyte m x

-- `operator<<` of an unsigned short, and of a short
unfoldable pub put_u16 : Marshall → ℕ → Marshall
put_u16 m x = put_rawbyte (put_rawbyte m (x / 2 ^ 8 % 2 ^ 8)) (x % 2 ^ 8)

-- `operator<<` of an unsigned int and of an int, and `marshall::pack`; an int is its bit pattern.
unfoldable pub put_u32 : Marshall → ℕ → Marshall
put_u32 m x =
    put_rawbyte
      (put_rawbyte (put_rawbyte (put_rawbyte m (x / 2 ^ 24 % 2 ^ 8)) (x / 2 ^ 16 % 2 ^ 8))
        (x / 2 ^ 8 % 2 ^ 8))
      (x % 2 ^ 8)

-- `operator<<` of an unsigned long long
unfoldable pub put_u64 : Marshall → ℕ → Marshall
put_u64 m x = put_u32 (put_u32 m (x / 2 ^ 32 % 2 ^ 32)) (x % 2 ^ 32)

-- `operator<<` of a string
unfoldable pub put_string : Marshall → Bytes → Marshall
put_string m s = put_rawbytes (put_u32 m (length s % 2 ^ 32)) s

-- `class unmarshall`
pub record Unmarshall : Type 0 where
  pub buf : Memory
  pub sz : ℕ
  pub ind : ℕ
  pub ok : Bool

-- `unmarshall(char *b, int sz)`
unfoldable pub unmarshall : Memory → ℕ → Unmarshall
unmarshall b sz = record { buf = b; sz = sz; ind = 0; ok = true }

-- `unmarshall::take_content`, in a buffer that holds anything.
unfoldable pub take_content : Memory → Bytes → Unmarshall
unfolding store_all
take_content junk s = record {
  buf = store_all junk rpc_header_sz s;
  sz = length s + rpc_header_sz;
  ind = rpc_header_sz;
  ok = true;
}

-- `unmarshall::take_in`: the contents of another object.
unfoldable pub take_in : Unmarshall → Unmarshall
take_in another = record another { ind = rpc_header_sz; ok = leb rpc_header_sz another.sz }

-- `unmarshall::okdone`
unfoldable pub okdone : Unmarshall → Bool
okdone u = u.ok && nat_eq u.ind u.sz

-- A `char` as an `unsigned int`: a byte from 128 on is sign-extended.
abbrev pub sign_extend : ℕ → ℕ
sign_extend c = if ltb c 128 then c else c + (2 ^ 32 - 256)

-- `unmarshall::rawbyte`
unfoldable pub rawbyte : Unmarshall → ℕ × Unmarshall
rawbyte u =
    if leb u.sz u.ind
    then (0, record u { ok = false })
    else (sign_extend (u.buf u.ind), record u { ind = u.ind + 1 })

-- `unmarshall::rawbytes`: the sum is one of unsigned ints. A refused read leaves the string alone.
unfoldable pub rawbytes : Unmarshall → Bytes → ℕ → Bytes × Unmarshall
unfolding slice
rawbytes u ss n =
    if ltb u.sz ((u.ind + n) % 2 ^ 32)
    then (ss, record u { ok = false })
    else (slice u.buf u.ind n, record u { ind = (u.ind + n) % 2 ^ 32 })

-- `operator>>` of a bool
unfoldable pub get_bool : Unmarshall → Bool × Unmarshall
unfolding rawbyte
get_bool u = let (c, u1) = rawbyte u in (not (nat_eq c 0), u1)

-- `operator>>` of an unsigned char, and of a char
unfoldable pub get_u8 : Unmarshall → ℕ × Unmarshall
get_u8 u = let (c, u1) = rawbyte u in (c % 2 ^ 8, u1)

-- `operator>>` of an unsigned short, and of a short: the parts share no bit, so that `|` adds.
unfoldable pub get_u16 : Unmarshall → ℕ × Unmarshall
get_u16 u =
    let (a, u1) = rawbyte u in let (b, u2) = rawbyte u1 in (a % 2 ^ 8 * 2 ^ 8 + b % 2 ^ 8, u2)

-- `operator>>` of an unsigned int and of an int, and `unmarshall::unpack`
unfoldable pub get_u32 : Unmarshall → ℕ × Unmarshall
get_u32 u =
    let (a, u1) = rawbyte u in
    let (b, u2) = rawbyte u1 in
    let (c, u3) = rawbyte u2 in
    let (d, u4) = rawbyte u3 in
    (a % 2 ^ 8 * 2 ^ 24 + b % 2 ^ 8 * 2 ^ 16 + c % 2 ^ 8 * 2 ^ 8 + d % 2 ^ 8, u4)

-- `operator>>` of an unsigned long long
unfoldable pub get_u64 : Unmarshall → ℕ × Unmarshall
get_u64 u = let (h, u1) = get_u32 u in let (l, u2) = get_u32 u1 in (l + h * 2 ^ 32, u2)

-- `operator>>` of a string, into one that holds `s`.
unfoldable pub get_string : Bytes → Unmarshall → Bytes × Unmarshall
get_string s u = let (n, u1) = get_u32 u in if u1.ok then rawbytes u1 s n else (s, u1)
