-- ===== src/Yfs/Files.antt =====
-- What the operations on files do to the files that a user sees (yfs_client.cc over extent_client.cc).
use ds.Common.{
  ℕ, ◌+◌, ◌<◌, ◌^◌, ◌≡◌, refl, ap, ◌∙◌, [], Option, some, Bytes, nat_eq, if◌then◌else◌, arith,
  length,
}
use ds.Extent.Client
use ds.Extent.Client.Content.{content, IsValid, Keeps, get_lem, put_lem}
use ds.Extent.Client.{is_ok}
use ds.Yfs.Client.{
  YfsClient, xx_ok, rewrite, set_size, read_file, write_file, part, spliced, resized,
}
use ds.Yfs.Bytes.{part-spliced}

-- The files that a user sees.
abbrev pub file : YfsClient → ℕ → Option Bytes
file y id = content y.ec id

-- The client relies on its calls, and on what it has cached.
abbrev pub IsSound : YfsClient → Type 0
IsSound y = IsValid y.ec

-- One file is new, and the others are as they were.
pub record Writes (y z : YfsClient) (ino : ℕ) (new : Bytes) : Type 0 where
  pub sees : (id : ℕ) → file z id ≡ (if nat_eq ino id then some new else file y id)
  pub sound : IsSound z

pub rewrite-Writes :
    (y : YfsClient) (ino : ℕ) (new : Bytes → Bytes) (old : Bytes)
    → IsSound y
    → file y ino ≡ some old
    → ((rewrite y ino new).1 ≡ xx_ok) × Writes y (rewrite y ino new).0 ino (new old)
unfolding rewrite
rewrite-Writes y ino new old v h =
    let (g, b, k) = get_lem y.ec ino [] old v h in
    let c = (Client.get y.ec ino []).0 in
    let p = put_lem c ino (new (Client.get y.ec ino []).2) k.valid in
    simp (g, p.0)
      (
        refl,
        record {
          sees = λ id.
              p.1 id ∙ rw b (ap (λ o. if nat_eq ino id then some (new old) else o) (k.same id));
          sound = p.2;
        },
      )

-- A read of a file gives the part asked for, and changes nothing that a user sees.
pub read_file_lem :
    (y : YfsClient) (ino off size : ℕ) (buf old : Bytes)
    → IsSound y
    → file y ino ≡ some old
    → ((read_file y ino off size buf).1 ≡ xx_ok)
      × ((read_file y ino off size buf).2 ≡ part old off size)
      × Keeps y.ec (read_file y ino off size buf).0.ec
unfolding read_file
read_file_lem y ino off size buf old v h =
    let (g, b, k) = get_lem y.ec ino [] old v h in simp g (refl, ap (λ t. part t off size) b, k)

pub set_size-Writes :
    (y : YfsClient) (ino size : ℕ) (old : Bytes)
    → IsSound y
    → file y ino ≡ some old
    → ((set_size y ino size).1 ≡ xx_ok) × Writes y (set_size y ino size).0 ino (resized old size)
unfolding set_size
set_size-Writes y ino size old v h = rewrite-Writes y ino (λ t. resized t size) old v h

pub write_file-Writes :
    (y : YfsClient) (ino off size : ℕ) (buf old : Bytes)
    → IsSound y
    → file y ino ≡ some old
    → ((write_file y ino off size buf).1 ≡ xx_ok)
      × Writes y (write_file y ino off size buf).0 ino (spliced old off size buf)
unfolding write_file
write_file-Writes y ino off size buf old v h =
    rewrite-Writes y ino (λ t. spliced t off size buf) old v h

self_eq {ℓ} : {A : Type ℓ} (i : ℕ) (a b : A) → (if nat_eq i i then a else b) ≡ a
self_eq i a b = ground arith

-- In a client whose calls are answered, a write that ends below 2^32 to a file that is there, and then
-- a read of as many bytes at the same offset, both succeed, and the read returns what was written.
pub read_file-write_file :
    (y : YfsClient) (ino off : ℕ) (buf before old : Bytes)
    → IsSound y
    → file y ino ≡ some old
    → off + length buf < 2 ^ 32
    → let w = write_file y ino off (length buf) buf in
      let r = read_file w.0 ino off (length buf) before in
      (w.1 ≡ xx_ok) × (r.1 ≡ xx_ok) × (r.2 ≡ buf)
read_file-write_file y ino off buf before old v h k =
    let (s, w) = write_file-Writes y ino off (length buf) buf old v h in
    let (t, b, n) =
      read_file_lem (write_file y ino off (length buf) buf).0 ino off (length buf) before
        (spliced old off (length buf) buf) w.sound (w.sees ino ∙ self_eq ino _ _) in
    (s, t, b ∙ part-spliced old off buf k)
