-- ===== src/Rpc/Marshall/Compound.antt =====
-- The codecs of vectors and maps (the templates of rpc/marshall.h), and what is read back from the
-- buffer that was written.
use ds.Common.{
  ℕ, zero, suc, ◌%◌, ◌^◌, ◌≤◌, ◌<◌, ◌≡◌, refl, sym, ◌∙◌, ap, List, [], ◌∷◌, ◌++◌, arith, Bytes,
  length, length-append, All, Eq, Map, insert,
}
use ds.Rpc.Marshall.{Marshall, Unmarshall, Memory, put_u32, get_u32, marshall, unmarshall}
use ds.Rpc.Marshall.Memory.{
  At-agree, At-append_left, At-append_right, Writes, Writes-nil, Writes-trans,
}
use ds.Rpc.Marshall.Codec.{Codec, Next, advance}
use ds.Rpc.Marshall.Basic.{bytes_u32, put_u32-Writes, get_u32-Next}

pub Next-left : (u : Unmarshall) (s t : Bytes) → Next u (s ++ t) → Next u s
Next-left u s t n = record {
  there = At-append_left u.buf u.ind s t n.there;
  room = omega (arith, n.room, length-append s t);
  small = n.small;
  good = n.good;
}

pub Next-right : (u : Unmarshall) (s t : Bytes) → Next u (s ++ t) → Next (advance u (length s)) t
Next-right u s t n = record {
  there = At-append_right u.buf u.ind s t n.there;
  room = omega (arith, n.room, length-append s t);
  small = n.small;
  good = n.good;
}

module _ {A : Type 0} (c : Codec A) where
  -- The loop of `operator<<` of a vector.
  unfoldable pub put_all : Marshall → List A → Marshall
  put_all m [] = m
  put_all m (a ∷ v) = put_all (c.put m a) v

  -- `operator<<` of a vector
  unfoldable pub put_vector : Marshall → List A → Marshall
  put_vector m v = put_all (put_u32 m (length v % 2 ^ 32)) v

  -- The loop of `operator>>` of a vector: `n` elements.
  unfoldable pub get_all : ℕ → Unmarshall → List A × Unmarshall
  get_all zero u = ([], u)
  get_all (suc n) u = let (a, u1) = c.get u in let (v, u2) = get_all n u1 in (a ∷ v, u2)

  -- `operator>>` of a vector
  unfoldable pub get_vector : Unmarshall → List A × Unmarshall
  get_vector u = let (n, u1) = get_u32 u in get_all n u1

  abbrev pub bytes_all : List A → Bytes
  bytes_all [] = []
  bytes_all (a ∷ v) = c.encode a ++ bytes_all v

  abbrev pub FitsVector : List A → Type 0
  FitsVector v = (length v < 2 ^ 32) × All c.Fits v

  pub put_all-Writes :
      (m : Marshall) (v : List A) → All c.Fits v → Writes m (put_all m v) (bytes_all v)
  unfolding put_all
  put_all-Writes m [] f = Writes-nil m
  put_all-Writes m (a ∷ v) f =
      Writes-trans m (c.put m a) _ (c.encode a) (bytes_all v) (c.put_writes m a f.0)
        (put_all-Writes (c.put m a) v f.1)

  pub put_vector-Writes :
      (m : Marshall) (v : List A)
      → FitsVector v
      → Writes m (put_vector m v) (bytes_u32 (length v % 2 ^ 32) ++ bytes_all v)
  unfolding put_vector
  put_vector-Writes m v f =
      Writes-trans m _ _ (bytes_u32 (length v % 2 ^ 32)) (bytes_all v) (put_u32-Writes m _)
        (put_all-Writes _ v f.1)

  pub get_all-Next :
      (u : Unmarshall) (v : List A)
      → All c.Fits v
      → Next u (bytes_all v)
      → get_all (length v) u ≡ (v, advance u (length (bytes_all v)))
  unfolding get_all
  get_all-Next u [] f n = ap (λ k. ([], record u { ind = k })) (omega arith)
  get_all-Next u (a ∷ v) f n = rw (c.get_reads u a f.0 (Next-left u (c.encode a) (bytes_all v) n)) (
      rw
        (get_all-Next (advance u (length (c.encode a))) v f.1
          (Next-right u (c.encode a) (bytes_all v) n))
        (ap (λ k. (a ∷ v, record u { ind = k }))
          (omega (arith, length-append (c.encode a) (bytes_all v)))))

  pub get_vector-Next :
      (u : Unmarshall) (v : List A)
      → FitsVector v
      → Next u (bytes_u32 (length v % 2 ^ 32) ++ bytes_all v)
      → get_vector u ≡ (v, advance u (length (bytes_u32 (length v % 2 ^ 32) ++ bytes_all v)))
  unfolding get_vector
  get_vector-Next u v f n =
      let (e1, n1) = get_u32-Next u (length v % 2 ^ 32) (bytes_all v) (omega arith) n in
      let len : length v % 2 ^ 32 ≡ length v = omega arith in
      rw (e1, len)
        (get_all-Next (advance u 4) v f.1 n1 ∙ ap (λ k. (v, record u { ind = k })) (omega arith))

  abbrev pub vector_codec : Codec (List A)
  vector_codec = record {
    put = put_vector;
    get = get_vector;
    Fits = FitsVector;
    encode = λ v. bytes_u32 (length v % 2 ^ 32) ++ bytes_all v;
    put_writes = put_vector-Writes;
    get_reads = get_vector-Next;
  }

-- Two values one behind the other: an entry of a map.
module _ {A B : Type 0} (c : Codec A) (d : Codec B) where
  unfoldable pub put_pair : Marshall → A × B → Marshall
  put_pair m (a, b) = d.put (c.put m a) b

  unfoldable pub get_pair : Unmarshall → (A × B) × Unmarshall
  get_pair u = let (a, u1) = c.get u in let (b, u2) = d.get u1 in ((a, b), u2)

  pub put_pair-Writes :
      (m : Marshall) (e : A × B)
      → c.Fits e.0 × d.Fits e.1
      → Writes m (put_pair m e) (c.encode e.0 ++ d.encode e.1)
  unfolding put_pair
  put_pair-Writes m e f =
      Writes-trans m (c.put m e.0) _ (c.encode e.0) (d.encode e.1) (c.put_writes m e.0 f.0)
        (d.put_writes (c.put m e.0) e.1 f.1)

  pub get_pair-Next :
      (u : Unmarshall) (e : A × B)
      → c.Fits e.0 × d.Fits e.1
      → Next u (c.encode e.0 ++ d.encode e.1)
      → get_pair u ≡ (e, advance u (length (c.encode e.0 ++ d.encode e.1)))
  unfolding get_pair
  get_pair-Next u e f n = rw (c.get_reads u e.0 f.0 (Next-left u (c.encode e.0) (d.encode e.1) n)) (
      rw (d.get_reads _ e.1 f.1 (Next-right u (c.encode e.0) (d.encode e.1) n)) (
        ap (λ k. (e, record u { ind = k }))
          (omega (arith, length-append (c.encode e.0) (d.encode e.1)))))

  abbrev pub pair_codec : Codec (A × B)
  pair_codec = record {
    put = put_pair;
    get = get_pair;
    Fits = λ e. c.Fits e.0 × d.Fits e.1;
    encode = λ e. c.encode e.0 ++ d.encode e.1;
    put_writes = put_pair-Writes;
    get_reads = get_pair-Next;
  }

  -- `operator<<` of a map: its entries in their order, as a vector of pairs is written.
  unfoldable pub put_map : Marshall → Map A B → Marshall
  put_map m v = put_all pair_codec (put_u32 m (length v % 2 ^ 32)) v

  module _ ⦃e : Eq A⦄ where
    -- The loop of `operator>>` of a map: `d[a] = b` for each entry.
    unfoldable pub get_entries : ℕ → Map A B → Unmarshall → Map A B × Unmarshall
    get_entries zero d u = (d, u)
    get_entries (suc n) d u = let ((a, b), u1) = get_pair u in get_entries n (insert a b d) u1

    -- `operator>>` of a map
    unfoldable pub get_map : Unmarshall → Map A B × Unmarshall
    get_map u = let (n, u1) = get_u32 u in get_entries n [] u1

-- What was marshalled into a new buffer is read back by `operator>>` of the same type, behind the
-- header, from any buffer that holds those bytes, and the reader ends where the writer did.
pub get-put :
    {A : Type 0} (c : Codec A) (junk : Memory) (a : A) (b : Memory) (sz : ℕ)
    → c.Fits a
    → ((j : ℕ) → j < (c.put (marshall junk) a).ind → b j ≡ (c.put (marshall junk) a).buf j)
    → (c.put (marshall junk) a).ind ≤ sz
    → sz < 2 ^ 31
    → c.get (record (unmarshall b sz) { ind = 24 })
      ≡ (a, record (unmarshall b sz) { ind = (c.put (marshall junk) a).ind })
unfolding marshall unmarshall
get-put c junk a b sz f same room small =
    let m = c.put (marshall junk) a in
    let w = c.put_writes (marshall junk) a f in
    c.get_reads (record (unmarshall b sz) { ind = 24 }) a f
      (record {
        there = At-agree m.buf b m.ind 24 (c.encode a) same (omega (arith, w.moved)) w.written;
        room = omega (arith, w.moved);
        small = small;
        good = refl;
      })
    ∙ ap (λ k. (a, record (unmarshall b sz) { ind = k })) (sym w.moved)
