-- ===== src/Yfs/Split.antt =====
-- Splitting a text at a delimiter (`Split` of split.h).
use ds.Common.{
  ℕ, zero, suc, ◌≤◌, ◌<◌, ◌≡◌, ◌≢◌, refl, Bool, true, false, List, [], ◌∷◌, ◌++◌, Option, none,
  some, Bytes, nat_Eq, bytes_Eq, ◌==◌, if◌then◌else◌, length, length-append, arith, All,
}

-- Whether a byte is in a text.
unfoldable pub is_in : ℕ → Bytes → Bool
is_in c [] = false
is_in c (x ∷ s) = if x == c then true else is_in c s

-- What follows a prefix of the text.
unfoldable pub strip : Bytes → Bytes → Option Bytes
strip [] s = some s
strip (m ∷ ms) [] = none
strip (m ∷ ms) (c ∷ s) = let more = strip ms s in if m == c then more else none

-- A match at the start of a text: of the whole delimiter, or of one of its bytes.
unfoldable pub found : Bool → Bytes → ℕ → Bytes → Option Bytes
unfolding strip is_in
found true delim c s = strip delim (c ∷ s)
found false delim c s = if is_in c delim then some s else none

-- The text up to the first match, and what follows the match.
unfoldable pub cut : Bool → Bytes → Bytes → Bytes × Option Bytes
cut full delim [] = ([], none)
cut full delim (c ∷ s) =
    let (token, rest) = cut full delim s in
    elim (found full delim c s) [ none ↦ (c ∷ token, rest) | some r ↦ ([], some r) ]

-- `if (!(removeEmpty && token.empty())) result.push_back(token);`
abbrev pub push : Bool → Bytes → List Bytes → List Bytes
push remove_empty [] tokens = if remove_empty then tokens else [] ∷ tokens
push remove_empty (c ∷ s) tokens = (c ∷ s) ∷ tokens

-- The loop of `Split`, with fuel for the bytes of the text.
unfoldable pub split_loop : ℕ → Bool → Bool → Bytes → Bytes → List Bytes
unfolding cut
split_loop zero remove_empty full delim s = []
split_loop (suc f) remove_empty full delim s =
    let (token, rest) = cut full delim s in
    push remove_empty token
      (elim rest [ none ↦ [] | some r ↦ split_loop f remove_empty full delim r ])

-- `Split`: an empty delimiter matches nothing.
unfoldable pub split : Bytes → Bytes → Bool → Bool → List Bytes
unfolding split_loop
split s [] remove_empty full = push remove_empty s []
split s (m ∷ delim) remove_empty full = split_loop (suc (length s)) remove_empty full (m ∷ delim) s

-- At a delimiter of one byte.
cut_byte :
    (d : ℕ) (w s : Bytes) → is_in d w ≡ false → cut true (d ∷ []) (w ++ (d ∷ s)) ≡ (w, some s)
unfolding cut found strip is_in
cut_byte d [] s h = ground (arith, nat_Eq.beq_iff d d)
cut_byte d (c ∷ w) s h = ground (arith, cut_byte d w s, nat_Eq.beq_iff d c, nat_Eq.beq_iff c d)

cut-none : (d : ℕ) (w : Bytes) → is_in d w ≡ false → cut true (d ∷ []) w ≡ (w, none)
unfolding cut found strip is_in
cut-none d [] h = refl
cut-none d (c ∷ w) h = ground (arith, cut-none d w, nat_Eq.beq_iff d c, nat_Eq.beq_iff c d)

-- A text of words that do not hold the byte, each with the byte behind it.
unfoldable pub ended : ℕ → List Bytes → Bytes
ended d [] = []
ended d (w ∷ ws) = w ++ (d ∷ ended d ws)

-- A word that is not empty and does not hold the byte.
pub record IsToken (d : ℕ) (w : Bytes) : Type 0 where
  pub ne_nil : w ≢ []
  pub without : is_in d w ≡ false

push_token : (w : Bytes) (ws : List Bytes) → w ≢ [] → push true w ws ≡ w ∷ ws
push_token [] ws h = absurd (h refl)
push_token (c ∷ w) ws h = refl

split_loop-ended :
    (f d : ℕ) (ws : List Bytes)
    → length ws < f
    → All (IsToken d) ws
    → split_loop f true true (d ∷ []) (ended d ws) ≡ ws
unfolding split_loop ended
split_loop-ended zero d ws h t = elim h [ ]
split_loop-ended (suc f) d [] h t = refl
split_loop-ended (suc f) d (w ∷ ws) h t = ground (
  arith,
  cut_byte d w (ended d ws) t.0.without,
  push_token w ws t.0.ne_nil,
  split_loop-ended f d ws (omega arith) t.1,
)

length-ended : (d : ℕ) (ws : List Bytes) → length ws ≤ length (ended d ws)
unfolding ended
length-ended d [] = omega arith
length-ended d (w ∷ ws) = ground (arith, length-ended d ws, length-append w (d ∷ ended d ws))

-- Words that are not empty and do not hold a byte are read back from the text that ends each of them
-- with that byte.
pub split-ended :
    (d : ℕ) (ws : List Bytes) → All (IsToken d) ws → split (ended d ws) (d ∷ []) true true ≡ ws
unfolding split
split-ended d ws t =
    split_loop-ended (suc (length (ended d ws))) d ws (ground (arith, length-ended d ws)) t

-- Two words with the byte between them.
pub split_pair :
    (d : ℕ) (v w : Bytes)
    → IsToken d v
    → IsToken d w
    → split (v ++ (d ∷ w)) (d ∷ []) true true ≡ v ∷ w ∷ []
unfolding split split_loop
split_pair d v w a b = ground (
  arith,
  length-append v (d ∷ w),
  cut_byte d v w a.without,
  cut-none d w b.without,
  push_token v (w ∷ []) a.ne_nil,
  push_token w [] b.ne_nil,
)
