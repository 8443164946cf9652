-- ===== src/Rpc/Marshall/Basic.antt =====
-- The codecs of the basic types: bool, unsigned and signed integers, strings (rpc/rpc.cc).
use ds.Common.{
  ℕ, ◌+◌, ◌*◌, ◌/◌, ◌%◌, ◌^◌, ◌<◌, ◌≡◌, ◌∙◌, ap, Bool, [], ◌∷◌, ◌++◌, arith, Bytes, length,
  if◌then◌else◌, if_true,
}
use mathlib.Core.List.{append-nil}
use ds.Rpc.Marshall.{
  Marshall, Unmarshall, put_rawbyte, put_bool, put_u8, put_u16, put_u32, put_u64, put_string,
  rawbyte, rawbytes, get_bool, get_u8, get_u16, get_u32, get_u64, get_string, sign_extend,
}
use ds.Rpc.Marshall.Memory.{slice-At, Writes, Writes-trans, put_rawbyte-Writes, put_rawbytes-Writes}
use ds.Rpc.Marshall.Codec.{Codec, Next, advance}

-- One byte is read, sign-extended.
pub rawbyte-Next :
    (u : Unmarshall) (c : ℕ) (s : Bytes)
    → Next u (c ∷ s)
    → (rawbyte u ≡ (sign_extend c, advance u 1)) × Next (advance u 1) s
unfolding rawbyte
rawbyte-Next u c s h = (
  ground (arith, h.there.0, h.room),
  record { there = h.there.1; room = omega (arith, h.room); small = h.small; good = h.good },
)

sign_extend_byte : (c : ℕ) → c < 2 ^ 8 → sign_extend c % 2 ^ 8 ≡ c
sign_extend_byte c h = ground arith

abbrev bytes_u16 : ℕ → Bytes
bytes_u16 x = x / 2 ^ 8 % 2 ^ 8 ∷ x % 2 ^ 8 ∷ []

-- Big-endian.
abbrev pub bytes_u32 : ℕ → Bytes
bytes_u32 x = x / 2 ^ 24 % 2 ^ 8 ∷ x / 2 ^ 16 % 2 ^ 8 ∷ x / 2 ^ 8 % 2 ^ 8 ∷ x % 2 ^ 8 ∷ []

pub put_u32-Writes : (m : Marshall) (x : ℕ) → Writes m (put_u32 m x) (bytes_u32 x)
unfolding put_u32
put_u32-Writes m x =
    let m1 = put_rawbyte m (x / 2 ^ 24 % 2 ^ 8) in
    let m2 = put_rawbyte m1 (x / 2 ^ 16 % 2 ^ 8) in
    let m3 = put_rawbyte m2 (x / 2 ^ 8 % 2 ^ 8) in
    Writes-trans m m1 _ (_ ∷ []) _ (put_rawbyte-Writes m _) (
      Writes-trans m1 m2 _ (_ ∷ []) _ (put_rawbyte-Writes m1 _)
        (Writes-trans m2 m3 _ (_ ∷ []) _ (put_rawbyte-Writes m2 _) (put_rawbyte-Writes m3 _)))

advance-advance : (u : Unmarshall) (a b c : ℕ) → a + b ≡ c → advance (advance u a) b ≡ advance u c
advance-advance u a b c e = ap (λ k. record u { ind = k }) (omega arith)

word_value :
    (x : ℕ)
    → x < 2 ^ 32
    → sign_extend (x / 2 ^ 24 % 2 ^ 8) % 2 ^ 8 * 2 ^ 24
        + sign_extend (x / 2 ^ 16 % 2 ^ 8) % 2 ^ 8 * 2 ^ 16
        + sign_extend (x / 2 ^ 8 % 2 ^ 8) % 2 ^ 8 * 2 ^ 8
        + sign_extend (x % 2 ^ 8) % 2 ^ 8
      ≡ x
word_value x h = omega (
  arith,
  sign_extend_byte (x / 2 ^ 24 % 2 ^ 8) (omega arith),
  sign_extend_byte (x / 2 ^ 16 % 2 ^ 8) (omega arith),
  sign_extend_byte (x / 2 ^ 8 % 2 ^ 8) (omega arith),
  sign_extend_byte (x % 2 ^ 8) (omega arith),
)

pub get_u32-Next :
    (u : Unmarshall) (x : ℕ) (s : Bytes)
    → x < 2 ^ 32
    → Next u (bytes_u32 x ++ s)
    → (get_u32 u ≡ (x, advance u 4)) × Next (advance u 4) s
unfolding get_u32
get_u32-Next u x s h n =
    let (e1, n1) = rawbyte-Next u _ _ n in
    let (e2, n2) = rawbyte-Next (advance u 1) _ _ n1 in
    let (e3, n3) = rawbyte-Next _ _ _ n2 in
    let (e4, n4) = rawbyte-Next _ _ _ n3 in
    let four : advance (advance (advance (advance u 1) 1) 1) 1 ≡ advance u 4 =
      ap (λ k. record u { ind = k }) (omega arith) in
    (rw (e1, e2, e3, e4, four) (rw (word_value x h)), rw four at n4)

abbrev pub bytes_u64 : ℕ → Bytes
bytes_u64 x = bytes_u32 (x / 2 ^ 32 % 2 ^ 32) ++ bytes_u32 (x % 2 ^ 32)

Next-nil : (u : Unmarshall) (s : Bytes) → Next u s → Next u (s ++ [])
Next-nil u s n = rw (append-nil s) n

pub get_u64-Next :
    (u : Unmarshall) (x : ℕ) → x < 2 ^ 64 → Next u (bytes_u64 x) → get_u64 u ≡ (x, advance u 8)
unfolding get_u64
get_u64-Next u x h n =
    let (e1, n1) = get_u32-Next u (x / 2 ^ 32 % 2 ^ 32) (bytes_u32 (x % 2 ^ 32)) (omega arith) n in
    let (e2, n2) = get_u32-Next (advance u 4) (x % 2 ^ 32) [] (omega arith) n1 in
    let value : x % 2 ^ 32 + x / 2 ^ 32 % 2 ^ 32 * 2 ^ 32 ≡ x = omega arith in
    let eight : advance (advance u 4) 4 ≡ advance u 8 =
      ap (λ k. record u { ind = k }) (omega arith) in
    rw (e1, e2, eight) (rw value)

pub get_u16-Next :
    (u : Unmarshall) (x : ℕ) → x < 2 ^ 16 → Next u (bytes_u16 x) → get_u16 u ≡ (x, advance u 2)
unfolding get_u16
get_u16-Next u x h n =
    let (e1, n1) = rawbyte-Next u _ _ n in
    let (e2, n2) = rawbyte-Next (advance u 1) _ _ n1 in
    let two : advance (advance u 1) 1 ≡ advance u 2 =
      ap (λ k. record u { ind = k }) (omega arith) in
    let value : sign_extend (x / 2 ^ 8 % 2 ^ 8) % 2 ^ 8 * 2 ^ 8 + sign_extend (x % 2 ^ 8) % 2 ^ 8
        ≡ x =
      omega (
        arith,
        sign_extend_byte (x / 2 ^ 8 % 2 ^ 8) (omega arith),
        sign_extend_byte (x % 2 ^ 8) (omega arith),
      ) in
    rw (e1, e2, two) (rw value)

pub get_bool-Next :
    (u : Unmarshall) (x : Bool) → Next u ((if x then 1 else 0) ∷ []) → get_bool u ≡ (x, advance u 1)
unfolding get_bool
get_bool-Next u x n = rw (rawbyte-Next u _ [] n).0 (ground arith)

rawbytes-Next :
    (u : Unmarshall) (d s : Bytes) → Next u s → rawbytes u d (length s) ≡ (s, advance u (length s))
unfolding rawbytes
rawbytes-Next u d s n = ground (arith, slice-At u.buf u.ind s n.there, n.room, n.small)

abbrev pub bytes_string : Bytes → Bytes
bytes_string s = bytes_u32 (length s % 2 ^ 32) ++ s

pub get_string-Next :
    (u : Unmarshall) (d s : Bytes)
    → length s < 2 ^ 32
    → Next u (bytes_string s)
    → get_string d u ≡ (s, advance u (length (bytes_string s)))
unfolding get_string
get_string-Next u d s h n =
    let (e1, n1) = get_u32-Next u (length s % 2 ^ 32) s (omega arith) n in
    let len : length s % 2 ^ 32 ≡ length s = omega arith in
    let total : advance (advance u 4) (length s) ≡ advance u (4 + length s) =
      ap (λ k. record u { ind = k }) (omega arith) in
    let size : 4 + length s ≡ length (bytes_string s) = omega arith in
    rw (e1, len)
      (if_true u.ok _ _ n.good
        ∙ rawbytes-Next (advance u 4) d s n1
        ∙ ap (λ v. (s, v)) (total ∙ ap (advance u) size))

pub put_bool-Writes :
    (m : Marshall) (x : Bool) → Writes m (put_bool m x) ((if x then 1 else 0) ∷ [])
unfolding put_bool
put_bool-Writes m x = put_rawbyte-Writes m _

pub put_u8-Writes : (m : Marshall) (x : ℕ) → Writes m (put_u8 m x) (x ∷ [])
unfolding put_u8
put_u8-Writes m x = put_rawbyte-Writes m x

pub get_u8-Next :
    (u : Unmarshall) (x : ℕ) → x < 2 ^ 8 → Next u (x ∷ []) → get_u8 u ≡ (x, advance u 1)
unfolding get_u8
get_u8-Next u x h n = rw (rawbyte-Next u x [] n).0 (rw (sign_extend_byte x h))

pub put_u16-Writes : (m : Marshall) (x : ℕ) → Writes m (put_u16 m x) (bytes_u16 x)
unfolding put_u16
put_u16-Writes m x =
    let m1 = put_rawbyte m (x / 2 ^ 8 % 2 ^ 8) in
    Writes-trans m m1 _ (_ ∷ []) _ (put_rawbyte-Writes m _) (put_rawbyte-Writes m1 _)

pub put_u64-Writes : (m : Marshall) (x : ℕ) → Writes m (put_u64 m x) (bytes_u64 x)
unfolding put_u64
put_u64-Writes m x =
    let m1 = put_u32 m (x / 2 ^ 32 % 2 ^ 32) in
    Writes-trans m m1 _ (bytes_u32 (x / 2 ^ 32 % 2 ^ 32)) (bytes_u32 (x % 2 ^ 32))
      (put_u32-Writes m _) (put_u32-Writes m1 _)

pub put_string-Writes : (m : Marshall) (s : Bytes) → Writes m (put_string m s) (bytes_string s)
unfolding put_string
put_string-Writes m s =
    let m1 = put_u32 m (length s % 2 ^ 32) in
    Writes-trans m m1 _ (bytes_u32 (length s % 2 ^ 32)) s (put_u32-Writes m _)
      (put_rawbytes-Writes m1 s)

abbrev pub bool_codec : Codec Bool
bool_codec = record {
  put = put_bool;
  get = get_bool;
  Fits = λ x. Unit {0};
  encode = λ x. (if x then 1 else 0) ∷ [];
  put_writes = λ m x f. put_bool-Writes m x;
  get_reads = λ u x f n. get_bool-Next u x n;
}

abbrev pub u8_codec : Codec ℕ
u8_codec = record {
  put = put_u8;
  get = get_u8;
  Fits = λ x. x < 2 ^ 8;
  encode = λ x. x ∷ [];
  put_writes = λ m x f. put_u8-Writes m x;
  get_reads = get_u8-Next;
}

abbrev pub u16_codec : Codec ℕ
u16_codec = record {
  put = put_u16;
  get = get_u16;
  Fits = λ x. x < 2 ^ 16;
  encode = bytes_u16;
  put_writes = λ m x f. put_u16-Writes m x;
  get_reads = get_u16-Next;
}

pub get_u32-reads :
    (u : Unmarshall) (x : ℕ) → x < 2 ^ 32 → Next u (bytes_u32 x) → get_u32 u ≡ (x, advance u 4)
get_u32-reads u x h n = (get_u32-Next u x [] h n).0

abbrev pub u32_codec : Codec ℕ
u32_codec = record {
  put = put_u32;
  get = get_u32;
  Fits = λ x. x < 2 ^ 32;
  encode = bytes_u32;
  put_writes = λ m x f. put_u32-Writes m x;
  get_reads = get_u32-reads;
}

abbrev pub u64_codec : Codec ℕ
u64_codec = record {
  put = put_u64;
  get = get_u64;
  Fits = λ x. x < 2 ^ 64;
  encode = bytes_u64;
  put_writes = λ m x f. put_u64-Writes m x;
  get_reads = get_u64-Next;
}

-- A string is read into one that is empty before.
abbrev pub string_codec : Codec Bytes
string_codec = record {
  put = put_string;
  get = get_string [];
  Fits = λ s. length s < 2 ^ 32;
  encode = bytes_string;
  put_writes = λ m s f. put_string-Writes m s;
  get_reads = λ u s f n. get_string-Next u [] s f n;
}
