-- ===== src/Rpc/Marshall/Memory.antt =====
-- Bytes written to a buffer and read from it (`marshall::rawbyte` and `rawbytes` of rpc/rpc.cc, and
-- `std::string(_buf + i, n)`).
use ds.Common.{
  ℕ, ◌+◌, ◌≤◌, ◌<◌, ◌≡◌, refl, ◌∙◌, [], ◌∷◌, ◌++◌, arith, Bytes, length, length-append, subst,
}
use ds.Rpc.Marshall.{Memory, store, store_all, slice, Marshall, put_rawbyte, put_rawbytes}

-- The bytes stand at the address.
abbrev pub At : Memory → ℕ → Bytes → Type 0
At b i [] = Unit {0}
At b i (c ∷ s) = (b i ≡ c) × At b (i + 1) s

pub At-move : (b : Memory) {i j : ℕ} (s : Bytes) → i ≡ j → At b i s → At b j s
At-move b s e h = subst (λ k. At b k s) e h

pub At-append :
    (b : Memory) (i : ℕ) (s t : Bytes) → At b i s → At b (i + length s) t → At b i (s ++ t)
At-append b i [] t h k = At-move b t (omega arith) k
At-append b i (c ∷ s) t h k = (h.0, At-append b (i + 1) s t h.1 (At-move b t (omega arith) k))

pub At-append_left : (b : Memory) (i : ℕ) (s t : Bytes) → At b i (s ++ t) → At b i s
At-append_left b i [] t h = tt
At-append_left b i (c ∷ s) t h = (h.0, At-append_left b (i + 1) s t h.1)

pub At-append_right : (b : Memory) (i : ℕ) (s t : Bytes) → At b i (s ++ t) → At b (i + length s) t
At-append_right b i [] t h = At-move b t (omega arith) h
At-append_right b i (c ∷ s) t h = At-move b t (omega arith) (At-append_right b (i + 1) s t h.1)

-- Memory that agrees below a bound holds the same bytes there.
pub At-agree :
    (b b' : Memory) (k i : ℕ) (s : Bytes)
    → ((j : ℕ) → j < k → b' j ≡ b j)
    → i + length s ≤ k
    → At b i s
    → At b' i s
At-agree b b' k i [] same h a = tt
At-agree b b' k i (c ∷ s) same h a =
    (same i (omega arith) ∙ a.0, At-agree b b' k (i + 1) s same (omega arith) a.1)

pub slice-At : (b : Memory) (i : ℕ) (s : Bytes) → At b i s → slice b i (length s) ≡ s
unfolding slice
slice-At b i [] h = refl
slice-At b i (c ∷ s) h = ground (arith, slice-At b (i + 1) s h.1)

store_all-below : (b : Memory) (i j : ℕ) (s : Bytes) → j < i → store_all b i s j ≡ b j
unfolding store_all
store_all-below b i j [] h = refl
store_all-below b i j (c ∷ s) h =
    store_all-below (store b i c) (i + 1) j s (omega arith) ∙ ground arith

pub store_all-At : (b : Memory) (i : ℕ) (s : Bytes) → At (store_all b i s) i s
unfolding store_all
store_all-At b i [] = tt
store_all-At b i (c ∷ s) = (
  store_all-below (store b i c) (i + 1) i s (omega arith) ∙ ground arith,
  store_all-At (store b i c) (i + 1) s,
)

-- What a write to a buffer leaves: the bytes behind what was there before.
pub record Writes (m m' : Marshall) (bs : Bytes) : Type 0 where
  pub moved : m'.ind ≡ m.ind + length bs
  pub written : At m'.buf m.ind bs
  pub kept : (j : ℕ) → j < m.ind → m'.buf j ≡ m.buf j

pub Writes-nil : (m : Marshall) → Writes m m []
Writes-nil m = record { moved = omega arith; written = tt; kept = λ j h. refl }

pub Writes-trans :
    (m m' m'' : Marshall) (s t : Bytes) → Writes m m' s → Writes m' m'' t → Writes m m'' (s ++ t)
Writes-trans m m' m'' s t h k = record {
  moved = omega (arith, h.moved, k.moved, length-append s t);
  written =
      At-append m''.buf m.ind s t
        (At-agree m'.buf m''.buf m'.ind m.ind s k.kept (omega (arith, h.moved)) h.written)
        (At-move m''.buf t h.moved k.written);
  kept = λ j l. k.kept j (omega (arith, h.moved)) ∙ h.kept j l;
}

pub put_rawbyte-Writes : (m : Marshall) (x : ℕ) → Writes m (put_rawbyte m x) (x ∷ [])
unfolding put_rawbyte
put_rawbyte-Writes m x = record {
  moved = refl;
  written = (ground arith, tt);
  kept = λ j h. ground arith;
}

pub put_rawbytes-Writes : (m : Marshall) (s : Bytes) → Writes m (put_rawbytes m s) s
unfolding put_rawbytes
put_rawbytes-Writes m s = record {
  moved = refl;
  written = store_all-At m.buf m.ind s;
  kept = λ j h. store_all-below m.buf m.ind j s h;
}
