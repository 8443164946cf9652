-- ===== src/Rpc/Marshall/Entries.antt =====
-- The codec of maps: the entries that `operator<<` writes and the inserts `d[a] = b` of `operator>>`
-- (rpc/marshall.h).
use mathlib.Core.List.{append-nil, append_assoc}
use ds.Common.{
  ◌%◌, ◌^◌, ◌<◌, ◌≡◌, refl, ◌∙◌, ap, [], ◌∷◌, ◌++◌, none, false, arith, Bytes, length,
  length-append, All, Eq, ◌==◌, Map, insert, lookup,
}
use ds.Rpc.Marshall.{Marshall, Unmarshall}
use ds.Rpc.Marshall.Memory.{Writes, Writes-trans}
use ds.Rpc.Marshall.Codec.{Codec, Next, advance}
use ds.Rpc.Marshall.Basic.{bytes_u32, put_u32-Writes, get_u32-Next}
use ds.Rpc.Marshall.Compound.{
  Next-left, Next-right, pair_codec, get_pair-Next, put_all-Writes, bytes_all, put_map, get_entries,
  get_map,
}

-- No key stands twice in the list.
abbrev pub Distinct {ℓ κ} : {K : Type ℓ} {V : Type κ} ⦃e : Eq K⦄ → Map K V → Type κ
Distinct [] = Unit
Distinct ((k, v) ∷ m) = (lookup k m ≡ none) × Distinct m

module _ {A B : Type 0} ⦃e : Eq A⦄ where
  insert_new : (k : A) (v : B) (m : Map A B) → lookup k m ≡ none → insert k v m ≡ m ++ ((k, v) ∷ [])
  unfolding lookup insert
  insert_new k v [] h = refl
  insert_new k v ((j, w) ∷ m) h = ground (arith, insert_new k v m)

  lookup-append_one :
      (k j : A) (v : B) (m : Map A B)
      → lookup j m ≡ none
      → (k == j) ≡ false
      → lookup j (m ++ ((k, v) ∷ [])) ≡ none
  unfolding lookup
  lookup-append_one k j v [] h n = ground arith
  lookup-append_one k j v ((i, w) ∷ m) h n = ground (arith, lookup-append_one k j v m)

  -- None of the keys of the second map is in the first.
  abbrev Apart : Map A B → Map A B → Type 0
  Apart d [] = Unit
  Apart d ((k, v) ∷ m) = (lookup k d ≡ none) × Apart d m

  Apart-nil : (m : Map A B) → Apart [] m
  unfolding lookup
  Apart-nil [] = tt
  Apart-nil ((k, v) ∷ m) = (refl, Apart-nil m)

  Apart-append :
      (d : Map A B) (k : A) (v : B) (m : Map A B)
      → lookup k m ≡ none
      → Apart d m
      → Apart (d ++ ((k, v) ∷ [])) m
  unfolding lookup
  Apart-append d k v [] h a = tt
  Apart-append d k v ((j, w) ∷ m) h a = (
    lookup-append_one k j v d a.0 (ground (arith, e.beq_iff k j, e.beq_iff j k)),
    Apart-append d k v m (ground arith) a.1,
  )

module _ {A B : Type 0} (c : Codec A) (d : Codec B) ⦃e : Eq A⦄ where
  abbrev FitsEntries : Map A B → Type 0
  FitsEntries = All (pair_codec c d).Fits

  abbrev pub FitsMap : Map A B → Type 0
  FitsMap m = (length m < 2 ^ 32) × FitsEntries m × Distinct m

  get_entries-Next :
      (u : Unmarshall) (acc m : Map A B)
      → FitsEntries m
      → Distinct m
      → Apart acc m
      → Next u (bytes_all (pair_codec c d) m)
      → get_entries c d (length m) acc u
        ≡ (acc ++ m, advance u (length (bytes_all (pair_codec c d) m)))
  unfolding get_entries
  get_entries-Next u acc [] f x a n =
      rw (append-nil acc) (ap (λ j. (acc, record u { ind = j })) (omega arith))
  get_entries-Next u acc ((k, v) ∷ m) f x a n =
      let pc = pair_codec c d in
      rw
        (
          get_pair-Next c d u (k, v) f.0 (Next-left u (pc.encode (k, v)) (bytes_all pc m) n),
          get_entries,
        )
        (rw (insert_new k v acc a.0) (
          get_entries-Next (advance u (length (pc.encode (k, v)))) (acc ++ ((k, v) ∷ [])) m f.1 x.1
            (Apart-append acc k v m x.0 a.1) (Next-right u (pc.encode (k, v)) (bytes_all pc m) n)
          ∙ rw (append_assoc acc ((k, v) ∷ []) m) (
              ap (λ j. (acc ++ ((k, v) ∷ m), record u { ind = j }))
                (omega (arith, length-append (pc.encode (k, v)) (bytes_all pc m))))))

  abbrev pub bytes_map : Map A B → Bytes
  bytes_map m = bytes_u32 (length m % 2 ^ 32) ++ bytes_all (pair_codec c d) m

  pub put_map-Writes :
      (m : Marshall) (v : Map A B) → FitsMap v → Writes m (put_map c d m v) (bytes_map v)
  unfolding put_map
  put_map-Writes m v f =
      Writes-trans m _ _ (bytes_u32 (length v % 2 ^ 32)) (bytes_all (pair_codec c d) v)
        (put_u32-Writes m _) (put_all-Writes (pair_codec c d) _ v f.1)

  pub get_map-Next :
      (u : Unmarshall) (v : Map A B)
      → FitsMap v
      → Next u (bytes_map v)
      → get_map c d u ≡ (v, advance u (length (bytes_map v)))
  unfolding get_map
  get_map-Next u v f n =
      let (e1, n1) = get_u32-Next u (length v % 2 ^ 32) _ (omega arith) n in
      let len : length v % 2 ^ 32 ≡ length v = omega arith in
      rw (e1, len)
        (get_entries-Next (advance u 4) [] v f.1 f.2 (Apart-nil v) n1
          ∙ ap (λ k. (v, record u { ind = k })) (omega arith))

  -- A map with distinct keys, which `operator<<` writes in its order.
  abbrev pub map_codec : Codec (Map A B)
  map_codec = record {
    put = put_map c d;
    get = get_map c d;
    Fits = FitsMap;
    encode = bytes_map;
    put_writes = put_map-Writes;
    get_reads = get_map-Next;
  }
