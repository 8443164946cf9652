-- ===== src/Rpc/Marshall/Bounds.antt =====
-- Reading past the end: what `class unmarshall` does where the buffer is too short
-- (`unmarshall::rawbyte` and `rawbytes` of rpc/rpc.cc).
use ds.Common.{if◌then◌else◌, leb, ℕ, ◌+◌, ◌^◌, ◌≤◌, ◌<◌, ◌≡◌, true, false, arith, Bytes}
use ds.Rpc.Marshall.{Unmarshall, rawbyte, rawbytes, get_u32, okdone, slice}

-- A message too short for a word is marked as bad and stays so: nothing read later makes it good.
pub get_u32_short :
    (u : Unmarshall)
    → u.ind ≤ u.sz
    → u.sz < u.ind + 4
    → ((get_u32 u).1.ok ≡ false) × ((get_u32 u).1.ind ≡ u.sz) × (okdone (get_u32 u).1 ≡ false)
unfolding get_u32 rawbyte okdone
get_u32_short u h k = (ground arith, ground arith, ground arith)

-- The check of `rawbytes` adds as an unsigned int: a length that wraps the sum around is let
-- through, although the bytes asked for lie past the end of the buffer.
pub rawbytes_overread :
    (u : Unmarshall) (s : Bytes) (n : ℕ)
    → u.ok ≡ true
    → u.ind ≤ u.sz
    → u.sz < 2 ^ 31
    → n < 2 ^ 32
    → 2 ^ 32 ≤ u.ind + n
    → (u.sz < u.ind + n)
      × ((rawbytes u s n).1.ok ≡ true)
      × ((rawbytes u s n).0 ≡ slice u.buf u.ind n)
      × ((rawbytes u s n).1.ind < u.ind)
unfolding rawbytes
rawbytes_overread u s n good h small fits wraps =
    (omega arith, ground arith, ground arith, ground arith)

-- Where the sum does not wrap, a length beyond the end of the buffer is refused, and the string is
-- left as it was; any other is read.
pub rawbytes_checked :
    (u : Unmarshall) (s : Bytes) (n : ℕ)
    → u.ok ≡ true
    → u.ind + n < 2 ^ 32
    → rawbytes u s n ≡ (
        if leb (u.ind + n) u.sz
        then (slice u.buf u.ind n, record u { ind = u.ind + n })
        else (s, record u { ok = false }))
unfolding rawbytes
rawbytes_checked u s n good fits = ground arith
