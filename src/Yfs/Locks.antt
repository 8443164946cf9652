-- ===== src/Yfs/Locks.antt =====
-- The locks that the operations of the file system client take and release (yfs_client.cc).
use ds.Common.{
  ℕ, ◌≡◌, ◌≢◌, refl, Bool, true, false, List, [], ◌∷◌, Option, none, some, Bytes, nat_eq, nat_Eq,
  if◌then◌else◌, arith, ◌>>=◌,
}
use ds.Yfs.Client.{
  YfsClient, xx_ok, LockCall, acquire, release, getfile, getdir, lookup, add_dirent, unlink,
  read_dir, rewrite, read_file, put_both, put_remove,
}

unfoldable pub has : ℕ → List ℕ → Bool
has i [] = false
has i (j ∷ h) = if nat_eq i j then true else has i h

-- The other locks than one that is held.
unfoldable pub without : ℕ → List ℕ → Option (List ℕ)
without i [] = none
without i (j ∷ h) =
    let rest = without i h in if nat_eq i j then some h else rest >>= λ r. some (j ∷ r)

-- The locks that are held after the calls, the last call first. There is no value when a thread waits
-- for a lock that it holds itself, or releases one that it does not hold.
unfoldable pub held : List LockCall → Option (List ℕ)
unfolding has without
held [] = some []
held (acquire i ∷ l) = held l >>= λ h. if has i h then none else some (i ∷ h)
held (release i ∷ l) = held l >>= λ h. without i h

-- No lock is held, and none was taken twice or released in vain.
abbrev pub IsBalanced : YfsClient → Type 0
IsBalanced y = held y.locks ≡ some []

-- One lock is held.
abbrev pub HoldsOnly : ℕ → YfsClient → Type 0
HoldsOnly i y = held y.locks ≡ some (i ∷ [])

pub held_once :
    (i : ℕ) (l : List LockCall) → held l ≡ some [] → held (release i ∷ acquire i ∷ l) ≡ some []
unfolding held has without
held_once i l h = simp h (ground arith)

pub held_taken :
    (i : ℕ) (l : List LockCall) → held l ≡ some [] → held (acquire i ∷ l) ≡ some (i ∷ [])
unfolding held has
held_taken i l h = simp h refl

pub held_released :
    (i : ℕ) (l : List LockCall) → held l ≡ some (i ∷ []) → held (release i ∷ l) ≡ some []
unfolding held without
held_released i l h = simp h (ground arith)

pub held_both :
    (d i : ℕ) (l : List LockCall)
    → d ≢ i
    → held l ≡ some (d ∷ [])
    → held (release d ∷ release i ∷ acquire i ∷ l) ≡ some []
unfolding held has without
held_both d i l ne h = simp h (ground arith)

module _ (y : YfsClient) where
  pub getfile-IsBalanced : (i : ℕ) → IsBalanced y → IsBalanced (getfile y i).0
  unfolding getfile
  getfile-IsBalanced i h = ground (arith, held_once i y.locks h)

  pub getdir-IsBalanced : (i : ℕ) → IsBalanced y → IsBalanced (getdir y i).0
  unfolding getdir
  getdir-IsBalanced i h = ground (arith, held_once i y.locks h)

  pub read_dir-IsBalanced : (i : ℕ) → IsBalanced y → IsBalanced (read_dir y i).0
  unfolding read_dir
  read_dir-IsBalanced i h = ground (arith, held_once i y.locks h)

  pub rewrite-IsBalanced :
      (i : ℕ) (new : Bytes → Bytes) → IsBalanced y → IsBalanced (rewrite y i new).0
  unfolding rewrite
  rewrite-IsBalanced i new h = ground (arith, held_once i y.locks h)

  pub read_file-IsBalanced :
      (i off size : ℕ) (buf : Bytes) → IsBalanced y → IsBalanced (read_file y i off size buf).0
  unfolding read_file
  read_file-IsBalanced i off size buf h = ground (arith, held_once i y.locks h)

  pub lookup_single-IsBalanced :
      (name : Bytes) (i : ℕ) → IsBalanced y → IsBalanced (lookup y name i true).0
  unfolding lookup
  lookup_single-IsBalanced name i h = ground (arith, held_once i y.locks h)

  -- A lookup that is a part of an operation leaves the lock of the directory with the caller, unless
  -- there is no directory.
  pub lookup-HoldsOnly :
      (name : Bytes) (i : ℕ)
      → IsBalanced y
      → (lookup y name i false).1 ≡ xx_ok
      → HoldsOnly i (lookup y name i false).0
  unfolding lookup
  lookup-HoldsOnly name i h k = ground (arith, held_taken i y.locks h)

  pub lookup-IsBalanced :
      (name : Bytes) (i : ℕ)
      → IsBalanced y
      → (lookup y name i false).1 ≢ xx_ok
      → IsBalanced (lookup y name i false).0
  unfolding lookup
  lookup-IsBalanced name i h k = ground (arith, held_once i y.locks h)

  pub add_dirent-IsBalanced :
      (d i : ℕ) (name : Bytes) → d ≢ i → HoldsOnly d y → IsBalanced (add_dirent y d i name).0
  unfolding add_dirent put_both
  add_dirent-IsBalanced d i name ne h = ground (arith, held_both d i y.locks ne h)

  pub unlink-IsBalanced :
      (d i : ℕ) (name : Bytes) → d ≢ i → HoldsOnly d y → IsBalanced (unlink y d i name).0
  unfolding unlink put_remove
  unlink-IsBalanced d i name ne h = ground (arith, held_both d i y.locks ne h)
