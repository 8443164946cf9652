-- ===== src/Config/View/Text.antt =====
-- The text of a view and back: `config::value` and `config::members` (config.cc).
use ds.Common.{
  ℕ, zero, suc, ◌≤◌, ◌<◌, ◌≡◌, refl, List, [], ◌∷◌, Bytes, bytes_Eq, length, read_word, space, All,
  IsWord, read_word_lem, read_word_end, skip_space, length-append, arith,
}
use ds.Config.View.{members, read_members, value}

read_members-space : (f : ℕ) (s : Bytes) → read_members f (space ∷ s) ≡ read_members f s
unfolding read_members read_word skip_space
read_members-space zero s = refl
read_members-space (suc f) s = refl

read_members-value :
    (f : ℕ) (ms : List Bytes) → length ms < f → All IsWord ms → read_members f (value ms) ≡ ms
unfolding read_members value
read_members-value zero ms h w = elim h [ ]
read_members-value (suc f) [] h w = ground (arith, read_word_end)
read_members-value (suc f) (m ∷ ms) h w = ground (
  arith,
  read_word_lem m (space ∷ value ms) w.0.no_space w.0.ne_nil refl,
  read_members-space f (value ms),
  read_members-value f ms (omega arith) w.1,
)

length-value : (ms : List Bytes) → length ms ≤ length (value ms)
unfolding value
length-value [] = omega arith
length-value (m ∷ ms) = ground (arith, length-value ms, length-append m (space ∷ value ms))

-- A view of addresses that are not empty and hold no white space is read back from its text.
pub members-value : (ms : List Bytes) → All IsWord ms → members (value ms) ≡ ms
unfolding members
members-value ms w =
    read_members-value (suc (length (value ms))) ms (ground (arith, length-value ms)) w
