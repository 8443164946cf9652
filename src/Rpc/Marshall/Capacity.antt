-- ===== src/Rpc/Marshall/Capacity.antt =====
-- The position and the capacity of the buffer of `class marshall` (`rawbyte` and `rawbytes` of
-- rpc/rpc.cc).
use ds.Common.{
  ℕ, ◌+◌, ◌*◌, ◌%◌, ◌^◌, ◌≤◌, ◌<◌, ◌≡◌, refl, List, [], ◌∷◌, arith, Bytes, length, ltb, false,
  Bool-cases, inl, inr,
}
use ds.Rpc.Marshall.{Memory, Marshall, marshall, put_rawbyte, put_rawbytes, int_lt}

int_lt_lem : (a b : ℕ) → a < 2 ^ 31 → b < 2 ^ 31 → int_lt a b ≡ ltb a b
int_lt_lem a b h k =
    let e : (a + 2 ^ 31) % 2 ^ 32 ≡ a + 2 ^ 31 = omega arith in
    let f : (b + 2 ^ 31) % 2 ^ 32 ≡ b + 2 ^ 31 = omega arith in rw (e, f) (ground arith)

-- The write position is inside the allocated buffer, or at its end, and the capacity is a positive int.
pub record IsAllocated (m : Marshall) : Type 0 where
  pub inside : m.ind ≤ m.capa
  pub nonempty : 0 < m.capa
  pub positive : m.capa < 2 ^ 31

-- A write keeps the position inside the buffer, and no bytes that it stored lie beyond it.
pub record Grows (m m' : Marshall) (n : ℕ) : Type 0 where
  pub allocated : IsAllocated m'
  pub capa_grows : m.capa ≤ m'.capa
  pub stored : m.ind + n ≤ m'.capa

pub put_rawbyte-Grows :
    (m : Marshall) (x : ℕ) → IsAllocated m → m.ind + 1 < 2 ^ 30 → Grows m (put_rawbyte m x) 1
unfolding put_rawbyte
put_rawbyte-Grows m x h l =
    let e = int_lt_lem m.ind m.capa (omega (arith, l)) h.positive in
    elim (Bool-cases (ltb m.ind m.capa)) [
      | inl k ↦
          simp (e, k)
            (record {
              allocated = record {
                inside = ground arith;
                nonempty = h.nonempty;
                positive = h.positive;
              };
              capa_grows = omega arith;
              stored = ground arith;
            })
      | inr k ↦
          let f : m.capa * 2 % 2 ^ 32 ≡ m.capa * 2 = ground (arith, h.inside) in
          simp (e, k, f)
            (record {
              allocated = record {
                inside = ground (arith, h.inside, h.nonempty);
                nonempty = ground (arith, h.nonempty);
                positive = ground (arith, h.inside);
              };
              capa_grows = omega arith;
              stored = ground (arith, h.inside, h.nonempty);
            })
    ]

pub put_rawbytes-Grows :
    (m : Marshall) (s : Bytes)
    → IsAllocated m
    → m.ind + length s < 2 ^ 30
    → Grows m (put_rawbytes m s) (length s)
unfolding put_rawbytes
put_rawbytes-Grows m s h l =
    let sum : (m.ind + length s) % 2 ^ 32 ≡ m.ind + length s = omega arith in
    let e = int_lt_lem m.capa (m.ind + length s) h.positive (omega (arith, l)) in
    let n = int_lt_lem (length s) m.capa (omega (arith, l)) h.positive in
    elim (Bool-cases (ltb m.capa (m.ind + length s))) [
      | inl k ↦ elim (Bool-cases (ltb (length s) m.capa)) [
        | inl g ↦
            let f : 2 * m.capa % 2 ^ 32 ≡ 2 * m.capa = ground arith in
            simp (sum, e, k, n, g, f)
              (record {
                allocated = record {
                  inside = ground (arith, h.inside);
                  nonempty = ground (arith, h.nonempty);
                  positive = ground arith;
                };
                capa_grows = omega arith;
                stored = ground (arith, h.inside);
              })
        | inr g ↦
            let f : (m.capa + length s) % 2 ^ 32 ≡ m.capa + length s = ground arith in
            simp (sum, e, k, n, g, f)
              (record {
                allocated = record {
                  inside = ground (arith, h.inside);
                  nonempty = ground (arith, h.nonempty);
                  positive = ground arith;
                };
                capa_grows = omega arith;
                stored = ground (arith, h.inside);
              })
      ]
      | inr k ↦
          simp (sum, e, k)
            (record {
              allocated = record {
                inside = ground arith;
                nonempty = h.nonempty;
                positive = h.positive;
              };
              capa_grows = omega arith;
              stored = ground arith;
            })
    ]

put_rawbyte-ind : (m : Marshall) (x : ℕ) → (put_rawbyte m x).ind ≡ m.ind + 1
unfolding put_rawbyte
put_rawbyte-ind m x = refl

put_rawbytes-ind : (m : Marshall) (s : Bytes) → (put_rawbytes m s).ind ≡ m.ind + length s
unfolding put_rawbytes
put_rawbytes-ind m s = refl

-- The two ways in which every operator writes.
pub data Write : Type 0 where
  byte : ℕ → Write
  block : Bytes → Write

pub write_all : Marshall → List Write → Marshall
write_all m [] = m
write_all m (byte x ∷ l) = write_all (put_rawbyte m x) l
write_all m (block s ∷ l) = write_all (put_rawbytes m s) l

abbrev pub size_all : List Write → ℕ
size_all [] = 0
size_all (byte x ∷ l) = 1 + size_all l
size_all (block s ∷ l) = length s + size_all l

write_all-Grows :
    (m : Marshall) (l : List Write)
    → IsAllocated m
    → m.ind + size_all l < 2 ^ 30
    → Grows m (write_all m l) (size_all l)
unfolding write_all
write_all-Grows m [] h b = record {
  allocated = h;
  capa_grows = omega arith;
  stored = omega (arith, h.inside);
}
write_all-Grows m (byte x ∷ l) h b =
    let i = put_rawbyte-ind m x in
    let g = put_rawbyte-Grows m x h (omega (arith, b)) in
    let r = write_all-Grows (put_rawbyte m x) l g.allocated (omega (arith, b, i)) in
    record {
      allocated = r.allocated;
      capa_grows = omega (arith, g.capa_grows, r.capa_grows);
      stored = omega (arith, r.stored, i);
    }
write_all-Grows m (block s ∷ l) h b =
    let i = put_rawbytes-ind m s in
    let g = put_rawbytes-Grows m s h (omega (arith, b)) in
    let r = write_all-Grows (put_rawbytes m s) l g.allocated (omega (arith, b, i)) in
    record {
      allocated = r.allocated;
      capa_grows = omega (arith, g.capa_grows, r.capa_grows);
      stored = omega (arith, r.stored, i);
    }

-- From a new object on, after any sequence of byte and block writes of fewer than 2^30 bytes with the
-- header, the position lies inside the allocated buffer, or at its end, the capacity is a positive int
-- that never fell, and the buffer holds the header and all that was written.
pub marshall-Grows :
    (junk : Memory) (l : List Write)
    → 24 + size_all l < 2 ^ 30
    → Grows (marshall junk) (write_all (marshall junk) l) (size_all l)
      × (24 + size_all l ≤ (write_all (marshall junk) l).capa)
unfolding marshall
marshall-Grows junk l b =
    let g =
      write_all-Grows (record { buf = junk; capa = 1024; ind = 24 }) l
        (record { inside = omega arith; nonempty = omega arith; positive = omega arith }) b in
    (g, g.stored)

-- A block that begins inside the buffer and whose end is beyond the largest int, 2^31 - 1, passes the
-- check of `rawbytes`: the buffer stays as large as it was, and the copy leaves it.
pub rawbytes_overflow :
    (m : Marshall) (s : Bytes)
    → IsAllocated m
    → length s < 2 ^ 31
    → 2 ^ 31 ≤ m.ind + length s
    → ((put_rawbytes m s).capa ≡ m.capa) × ((put_rawbytes m s).capa < (put_rawbytes m s).ind)
unfolding put_rawbytes
rawbytes_overflow m s h l b =
    let sum : (m.ind + length s) % 2 ^ 32 ≡ m.ind + length s =
      omega (arith, h.inside, h.positive) in
    let e : (m.capa + 2 ^ 31) % 2 ^ 32 ≡ m.capa + 2 ^ 31 = omega (arith, h.positive) in
    let f : (m.ind + length s + 2 ^ 31) % 2 ^ 32 + 2 ^ 31 ≡ m.ind + length s =
      omega (arith, h.inside, h.positive) in
    let no : int_lt m.capa ((m.ind + length s) % 2 ^ 32) ≡ false = rw sum (rw e (ground arith)) in
    simp no (refl, omega (arith, h.positive))
