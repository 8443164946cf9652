-- ===== src/Yfs/Bytes.antt =====
-- The bytes of a file behind `setSize`, `writeFile` and `readFile` (yfs_client.cc).
use ds.Common.{
  ℕ, zero, suc, ◌+◌, ◌-◌, ◌%◌, ◌^◌, ◌≤◌, ◌<◌, ◌≡◌, refl, ◌∙◌, [], ◌∷◌, ◌++◌, Option, none, some,
  Bytes, if◌then◌else◌, length, take, drop, replicate, ltb, arith, length-replicate,
}
use ds.Yfs.Client.{resized, part, spliced}

-- The byte at an offset, if the file has one there.
unfoldable pub get_elem? : Bytes → ℕ → Option ℕ
get_elem? [] i = none
get_elem? (c ∷ s) zero = some c
get_elem? (c ∷ s) (suc i) = get_elem? s i

get_elem?-append :
    (s t : Bytes) (i : ℕ)
    → get_elem? (s ++ t) i
      ≡ (if ltb i (length s) then get_elem? s i else get_elem? t (i - length s))
unfolding get_elem?
get_elem?-append [] t i = ground arith
get_elem?-append (c ∷ s) t zero = ground arith
get_elem?-append (c ∷ s) t (suc i) = ground (arith, get_elem?-append s t i)

get_elem?-take :
    (n : ℕ) (s : Bytes) (i : ℕ) → get_elem? (take n s) i ≡ (if ltb i n then get_elem? s i else none)
unfolding get_elem?
get_elem?-take zero s i = ground arith
get_elem?-take (suc n) [] i = ground arith
get_elem?-take (suc n) (c ∷ s) zero = ground arith
get_elem?-take (suc n) (c ∷ s) (suc i) = ground (arith, get_elem?-take n s i)

get_elem?-drop : (n : ℕ) (s : Bytes) (i : ℕ) → get_elem? (drop n s) i ≡ get_elem? s (n + i)
unfolding get_elem?
get_elem?-drop zero s i = ground arith
get_elem?-drop (suc n) [] i = ground arith
get_elem?-drop (suc n) (c ∷ s) i = ground (arith, get_elem?-drop n s i)

get_elem?-replicate : (n c i : ℕ) → get_elem? (replicate n c) i ≡ (if ltb i n then some c else none)
unfolding get_elem?
get_elem?-replicate zero c i = ground arith
get_elem?-replicate (suc n) c zero = ground arith
get_elem?-replicate (suc n) c (suc i) = ground (arith, get_elem?-replicate n c i)

get_elem?_end : (s : Bytes) (i : ℕ) → length s ≤ i → get_elem? s i ≡ none
unfolding get_elem?
get_elem?_end [] i h = refl
get_elem?_end (c ∷ s) zero h = ground arith
get_elem?_end (c ∷ s) (suc i) h = ground (arith, get_elem?_end s i)

length-take : (n : ℕ) (s : Bytes) → n ≤ length s → length (take n s) ≡ n
length-take zero s h = refl
length-take (suc n) [] h = ground arith
length-take (suc n) (c ∷ s) h = ground (arith, length-take n s)

length-drop : (n : ℕ) (s : Bytes) → length (drop n s) ≡ length s - n
length-drop zero s = ground arith
length-drop (suc n) [] = ground arith
length-drop (suc n) (c ∷ s) = ground (arith, length-drop n s)

-- The byte that a file of bytes `file` has at `i` after zeros are appended to it.
abbrev pub padded : Bytes → ℕ → Option ℕ
padded file i = if ltb i (length file) then get_elem? file i else some 0

-- A file of a new size has exactly that many bytes, the old ones first and zeros behind them.
pub get_elem?-resized :
    (file : Bytes) (size i : ℕ)
    → get_elem? (resized file size) i ≡ (if ltb i size then padded file i else none)
unfolding get_elem?
get_elem?-resized file zero i = ground arith
get_elem?-resized file (suc n) i = ground (
  arith,
  get_elem?-take (suc n) file i,
  get_elem?-append file (replicate (suc n - length file) 0) i,
  get_elem?-replicate (suc n - length file) 0 (i - length file),
)

-- What is read at an offset: the bytes of the file there, up to the size asked for.
pub get_elem?-part :
    (file : Bytes) (off size i : ℕ)
    → get_elem? (part file off size) i ≡ (if ltb i size then get_elem? file (off + i) else none)
unfolding part
get_elem?-part file off size i = ground (
  arith,
  get_elem?-take (length file - off) (drop off file) i,
  get_elem?-take size (drop off file) i,
  get_elem?-drop off file i,
  get_elem?_end file (off + i),
)

-- The bytes of the three texts that a write makes.
get_elem?_gap :
    (file : Bytes) (off : ℕ) (buf : Bytes) (i : ℕ)
    → length file ≤ off
    → get_elem? (file ++ (replicate (off - length file) 0 ++ buf)) i
      ≡ (if ltb i off then padded file i else get_elem? buf (i - off))
get_elem?_gap file off buf i h = ground (
  arith,
  get_elem?-append file (replicate (off - length file) 0 ++ buf) i,
  get_elem?-append (replicate (off - length file) 0) buf (i - length file),
  get_elem?-replicate (off - length file) 0 (i - length file),
  length-replicate {A = ℕ} (off - length file) 0,
)

get_elem?_over :
    (file : Bytes) (off : ℕ) (rest : Bytes) (i : ℕ)
    → off ≤ length file
    → get_elem? (take off file ++ rest) i
      ≡ (if ltb i off then get_elem? file i else get_elem? rest (i - off))
get_elem?_over file off rest i h = ground (
  arith,
  get_elem?-append (take off file) rest i,
  get_elem?-take off file i,
  length-take off file,
)

get_elem?_behind :
    (file buf : Bytes) (m i : ℕ)
    → m ≤ length file
    → get_elem? (buf ++ take (length file - m) (drop m file)) i
      ≡ (if ltb i (length buf) then get_elem? buf i else get_elem? file (m + (i - length buf)))
get_elem?_behind file buf m i h = ground (
  arith,
  get_elem?-append buf (take (length file - m) (drop m file)) i,
  get_elem?-take (length file - m) (drop m file) (i - length buf),
  get_elem?-drop m file (i - length buf),
  get_elem?_end file (m + (i - length buf)),
)

get_elem?_below :
    (file : Bytes) (off : ℕ) (buf : Bytes) (i : ℕ) (m : ℕ)
    → m ≡ off + length buf
    → off < length file
    → get_elem?
        (if ltb m (length file)
          then take off file ++ (buf ++ take (length file - m) (drop m file))
          else take off file ++ buf)
        i
      ≡ (if ltb i off
          then get_elem? file i
          else if ltb i m
          then get_elem? buf (i - off)
          else get_elem? file i)
get_elem?_below file off buf i m e h = ground (
  arith,
  get_elem?_over file off (buf ++ take (length file - m) (drop m file)) i,
  get_elem?_over file off buf i,
  get_elem?_behind file buf m (i - off),
  get_elem?_end buf (i - off),
  get_elem?_end file i,
)

-- A write below 2^32: the bytes written stand at their offset, a gap in front of them is filled with
-- zeros, and every other byte is as it was.
pub get_elem?-spliced :
    (file : Bytes) (off : ℕ) (buf : Bytes) (i : ℕ)
    → off + length buf < 2 ^ 32
    → get_elem? (spliced file off (length buf) buf) i ≡ (
        if ltb i off
        then padded file i
        else if ltb i (off + length buf)
        then get_elem? buf (i - off)
        else get_elem? file i)
unfolding spliced
get_elem?-spliced file off buf i h = ground (
  arith,
  get_elem?_gap file off buf i,
  get_elem?_below file off buf i ((off + length buf) % 2 ^ 32),
  get_elem?_end buf (i - off),
  get_elem?_end file i,
)

ext : (s t : Bytes) → ((i : ℕ) → get_elem? s i ≡ get_elem? t i) → s ≡ t
unfolding get_elem?
ext [] [] h = refl
ext [] (d ∷ t) h = let n : none ≡ some d = h 0 in cc
ext (c ∷ s) [] h = let n : some c ≡ none = h 0 in cc
ext (c ∷ s) (d ∷ t) h = let n : some c ≡ some d = h 0 in let r = ext s t (λ i. h (suc i)) in cc

-- What a write below 2^32 put at an offset is read back there.
pub part-spliced :
    (file : Bytes) (off : ℕ) (buf : Bytes)
    → off + length buf < 2 ^ 32
    → part (spliced file off (length buf) buf) off (length buf) ≡ buf
part-spliced file off buf h =
    ext (part (spliced file off (length buf) buf) off (length buf)) buf (λ i.
      get_elem?-part (spliced file off (length buf) buf) off (length buf) i
      ∙ rw (get_elem?-spliced file off buf (off + i) h) (ground (arith, get_elem?_end buf i)))
