-- ===== src/Rpc/Marshall/Codec.antt =====
-- The interface of a type that is marshalled: its two operators (`operator<<`, `operator>>` of
-- rpc/marshall.h) and what ties them together.
use ds.Common.{ℕ, ◌+◌, ◌≤◌, ◌<◌, ◌^◌, ◌≡◌, true, Bytes, length}
use ds.Rpc.Marshall.{Marshall, Unmarshall}
use ds.Rpc.Marshall.Memory.{At, Writes}

-- The bytes are the next ones to be read, in a buffer whose size is an int.
pub record Next (u : Unmarshall) (bs : Bytes) : Type 0 where
  pub there : At u.buf u.ind bs
  pub room : u.ind + length bs ≤ u.sz
  pub small : u.sz < 2 ^ 31
  pub good : u.ok ≡ true

abbrev pub advance : Unmarshall → ℕ → Unmarshall
advance u n = record u { ind = u.ind + n }

-- `Fits` holds of the values of the type, `encode` is their text, and `get d` reads into a variable
-- that holds `d`.
pub record Codec (A : Type 0) : Type 1 where
  pub put : Marshall → A → Marshall
  pub get : Unmarshall → A × Unmarshall
  pub Fits : A → Type 0
  pub encode : A → Bytes
  pub put_writes : (m : Marshall) (a : A) → Fits a → Writes m (put m a) (encode a)
  pub get_reads :
      (u : Unmarshall) (a : A)
      → Fits a
      → Next u (encode a)
      → get u ≡ (a, advance u (length (encode a)))
