-- ===== src/Yfs/Balance.antt =====
-- Whatever a handler of fuse.cc does, it gives back the locks that it took.
use ds.Common.{
  ℕ, ◌%◌, ◌^◌, ◌≡◌, ◌≢◌, refl, Bool, true, false, List, [], ◌∷◌, Option, none, some, Bytes, arith,
  Bool-cases, inl, inr, is_some, subst, length,
}
use ds.Yfs.Client
use ds.Yfs.Client.{
  YfsClient, XxStatus, xx_ok, xx_rpcerr, xx_noent, xx_ioerr, xx_exist, isfile, isdir, release_lock,
  set_size, write_file, resized, spliced, acquire, release,
}
use ds.Yfs.Locks.{
  IsBalanced, HoldsOnly, held_released, getfile-IsBalanced, getdir-IsBalanced, read_dir-IsBalanced,
  rewrite-IsBalanced, read_file-IsBalanced, lookup_single-IsBalanced, lookup-HoldsOnly,
  lookup-IsBalanced, add_dirent-IsBalanced, unlink-IsBalanced, held, has,
}
use ds.Yfs.Fuse.{
  getattr, fuseserver_getattr, fuseserver_setattr, fuseserver_read, fuseserver_write,
  fuseserver_create, fuseserver_createhelper, fuseserver_mknod, fuseserver_lookup, fuseserver_open,
  fuseserver_mkdir, fuseserver_unlink, fuseserver_statfs, fuseserver_readdir, enter, file_number,
  dir_number, created, looked, unlinked, is_xx_ok, FuseRequest, handle, getattr_request,
  open_request, setattr_request, read_request, write_request, create_request, mknod_request,
  mkdir_request, lookup_request, unlink_request, readdir_request, statfs_request, Reply, Stat,
}

pub isfile-file_number : (r : ℕ) → isfile (file_number r) ≡ true
isfile-file_number r = ground arith

pub ne_file : (d i : ℕ) → isdir d ≡ true → isfile i ≡ true → d ≢ i
ne_file d i h k e = ground (arith, e)

getattr-IsBalanced : (y : YfsClient) (ino : ℕ) → IsBalanced y → IsBalanced (getattr y ino).0
unfolding getattr
getattr-IsBalanced y ino h = ground (arith, getfile-IsBalanced y ino h, getdir-IsBalanced y ino h)

enter-IsBalanced :
    (y : YfsClient) (d : ℕ) (name : Bytes) (i : ℕ)
    → d ≢ i
    → HoldsOnly d y
    → IsBalanced (enter y d name i).0
unfolding enter
enter-IsBalanced y d name i ne h =
    let a = add_dirent-IsBalanced y d i name ne h in
    ground (arith, a, getattr-IsBalanced (Client.add_dirent y d i name).0 i a)

set_size-IsBalanced :
    (y : YfsClient) (ino size : ℕ) → IsBalanced y → IsBalanced (set_size y ino size).0
unfolding set_size
set_size-IsBalanced y ino size h = rewrite-IsBalanced y ino (λ t. resized t size) h

write_file-IsBalanced :
    (y : YfsClient) (ino off size : ℕ) (buf : Bytes)
    → IsBalanced y
    → IsBalanced (write_file y ino off size buf).0
unfolding write_file
write_file-IsBalanced y ino off size buf h =
    rewrite-IsBalanced y ino (λ t. spliced t off size buf) h

is_xx_ok_eq : (s : XxStatus) → is_xx_ok s ≡ true → s ≡ xx_ok
is_xx_ok_eq xx_ok h = refl
is_xx_ok_eq xx_rpcerr h = cc
is_xx_ok_eq xx_noent h = cc
is_xx_ok_eq xx_ioerr h = cc
is_xx_ok_eq xx_exist h = cc

ne_xx_ok : (s : XxStatus) → is_xx_ok s ≡ false → s ≢ xx_ok
ne_xx_ok xx_ok h e = cc
ne_xx_ok xx_rpcerr h e = cc
ne_xx_ok xx_noent h e = cc
ne_xx_ok xx_ioerr h e = cc
ne_xx_ok xx_exist h e = cc

createhelper-IsBalanced :
    (y : YfsClient) (d : ℕ) (name : Bytes) (rand : ℕ)
    → d ≢ file_number rand
    → IsBalanced y
    → IsBalanced (fuseserver_createhelper y d name rand).0
unfolding fuseserver_createhelper
createhelper-IsBalanced y d name rand ne h =
    let a = Client.lookup y name d false in
    elim (Bool-cases (is_xx_ok a.1)) [
      | inl k ↦
          let hold = lookup-HoldsOnly y name d h (is_xx_ok_eq a.1 k) in
          elim (Bool-cases (is_some a.2)) [
            | inl s ↦ simp (k, s) (held_released d a.0.locks hold)
            | inr s ↦ simp (k, s) (enter-IsBalanced a.0 d name (file_number rand) ne hold)
          ]
      | inr k ↦ simp k (lookup-IsBalanced y name d h (ne_xx_ok a.1 k))
    ]

created_state :
    (reply : ℕ → Stat → Reply) (ino : ℕ) (y : YfsClient) (r : XxStatus) (st : Stat)
    → (created reply ino (y, r, st)).0 ≡ y
created_state reply ino y xx_ok st = refl
created_state reply ino y xx_rpcerr st = refl
created_state reply ino y xx_noent st = refl
created_state reply ino y xx_ioerr st = refl
created_state reply ino y xx_exist st = refl

created-IsBalanced :
    (reply : ℕ → Stat → Reply) (ino : ℕ) (r : YfsClient × XxStatus × Stat)
    → IsBalanced r.0
    → IsBalanced (created reply ino r).0
created-IsBalanced reply ino r h = rw (created_state reply ino r.0 r.1 r.2) h

looked-IsBalanced : (y : YfsClient) (o : Option ℕ) → IsBalanced y → IsBalanced (looked y o).0
looked-IsBalanced y none h = h
looked-IsBalanced y (some ino) h = getattr-IsBalanced y ino h

unlinked-IsBalanced :
    (y : YfsClient) (d : ℕ) (name : Bytes) (o : Option ℕ)
    → isdir d ≡ true
    → HoldsOnly d y
    → IsBalanced (unlinked y d name o).0
unlinked-IsBalanced y d name none k h = held_released d y.locks h
unlinked-IsBalanced y d name (some ino) k h = elim (Bool-cases (isfile ino)) [
  | inl f ↦ simp f (unlink-IsBalanced y d ino name (ne_file d ino k f) h)
  | inr f ↦ simp f (held_released d y.locks h)
]

lookup_request-IsBalanced :
    (y : YfsClient) (d : ℕ) (name : Bytes)
    → IsBalanced y
    → IsBalanced (fuseserver_lookup y d name).0
unfolding fuseserver_lookup
lookup_request-IsBalanced y d name h =
    let a = Client.lookup y name d true in
    let b = lookup_single-IsBalanced y name d h in
    elim (Bool-cases (is_xx_ok a.1)) [
      | inl k ↦ simp k (looked-IsBalanced a.0 a.2 b)
      | inr k ↦ simp k b
    ]

mkdir-IsBalanced :
    (y : YfsClient) (d : ℕ) (name : Bytes) (rand : ℕ)
    → d ≢ dir_number rand
    → IsBalanced y
    → IsBalanced (fuseserver_mkdir y d name rand).0
unfolding fuseserver_mkdir
mkdir-IsBalanced y d name rand ne h =
    let a = Client.lookup y name d false in
    elim (Bool-cases (is_xx_ok a.1)) [
      | inl k ↦
          let hold = lookup-HoldsOnly y name d h (is_xx_ok_eq a.1 k) in
          elim (Bool-cases (is_some a.2)) [
            | inl s ↦ simp (k, s) (held_released d a.0.locks hold)
            | inr s ↦ simp (k, s) (enter-IsBalanced a.0 d name (dir_number rand) ne hold)
          ]
      | inr k ↦ simp k (lookup-IsBalanced y name d h (ne_xx_ok a.1 k))
    ]

unlink_request-IsBalanced :
    (y : YfsClient) (d : ℕ) (name : Bytes)
    → isdir d ≡ true
    → IsBalanced y
    → IsBalanced (fuseserver_unlink y d name).0
unfolding fuseserver_unlink
unlink_request-IsBalanced y d name dir h =
    let a = Client.lookup y name d false in
    elim (Bool-cases (is_xx_ok a.1)) [
      | inl k ↦
          simp k (
            unlinked-IsBalanced a.0 d name a.2 dir
              (lookup-HoldsOnly y name d h (is_xx_ok_eq a.1 k)))
      | inr k ↦ simp k (lookup-IsBalanced y name d h (ne_xx_ok a.1 k))
    ]

setattr-IsBalanced :
    (y : YfsClient) (ino : ℕ) (to_set : Bool) (size : ℕ)
    → IsBalanced y
    → IsBalanced (fuseserver_setattr y ino to_set size).0
unfolding fuseserver_setattr
setattr-IsBalanced y ino to_set size h =
    let a = set_size-IsBalanced y ino (size % 2 ^ 32) h in
    ground (arith, h, a, getattr-IsBalanced (set_size y ino (size % 2 ^ 32)).0 ino a)

-- What a request needs so that its handler does not wait for a lock that it holds: entries are made in
-- and taken from directories, and a new directory does not get the number of its parent.
abbrev pub IsApart : FuseRequest → Type 0
IsApart (create_request parent name rand) = isdir parent ≡ true
IsApart (mknod_request parent name rand) = isdir parent ≡ true
IsApart (mkdir_request parent name rand) = parent ≢ dir_number rand
IsApart (unlink_request parent name) = isdir parent ≡ true
IsApart _ = Unit {0}

-- A handler that starts without a lock ends without a lock on every path, errors included: it takes no
-- lock twice and releases none that it does not hold. The request makes entries in directories only,
-- and a new directory does not get the number of its parent.
pub handle-IsBalanced :
    (dirent : Bytes → ℕ → Bytes) (y : YfsClient) (q : FuseRequest)
    → IsApart q
    → IsBalanced y
    → IsBalanced (handle dirent y q).0
unfolding handle fuseserver_getattr fuseserver_read fuseserver_write fuseserver_create
    fuseserver_mknod fuseserver_open fuseserver_statfs fuseserver_readdir
handle-IsBalanced dirent y (getattr_request ino) a h = getattr-IsBalanced y ino h
handle-IsBalanced dirent y (open_request ino) a h = h
handle-IsBalanced dirent y (setattr_request ino to_set size) a h =
    setattr-IsBalanced y ino to_set size h
handle-IsBalanced dirent y (read_request ino size off) a h =
    read_file-IsBalanced y ino (off % 2 ^ 32) (size % 2 ^ 32) [] h
handle-IsBalanced dirent y (write_request ino buf off) a h =
    write_file-IsBalanced y ino (off % 2 ^ 32) (length buf % 2 ^ 32) buf h
handle-IsBalanced dirent y (create_request d name rand) a h =
    created-IsBalanced Reply.reply_create (file_number rand) (fuseserver_createhelper y d name rand)
      (createhelper-IsBalanced y d name rand
        (ne_file d (file_number rand) a (isfile-file_number rand)) h)
handle-IsBalanced dirent y (mknod_request d name rand) a h =
    created-IsBalanced Reply.reply_entry (file_number rand) (fuseserver_createhelper y d name rand)
      (createhelper-IsBalanced y d name rand
        (ne_file d (file_number rand) a (isfile-file_number rand)) h)
handle-IsBalanced dirent y (mkdir_request d name rand) a h = mkdir-IsBalanced y d name rand a h
handle-IsBalanced dirent y (lookup_request d name) a h = lookup_request-IsBalanced y d name h
handle-IsBalanced dirent y (unlink_request d name) a h = unlink_request-IsBalanced y d name a h
handle-IsBalanced dirent y (readdir_request ino size off) a h =
    ground (arith, h, read_dir-IsBalanced y ino h)
handle-IsBalanced dirent y statfs_request a h = h

stuck_once :
    (i : ℕ) (l : List Client.LockCall) → held l ≡ none → held (release i ∷ acquire i ∷ l) ≡ none
unfolding held
stuck_once i l h = simp h refl

getattr_stuck : (y : YfsClient) (i : ℕ) → held y.locks ≡ none → held (getattr y i).0.locks ≡ none
unfolding getattr Client.getfile Client.getdir
getattr_stuck y i h = ground (arith, stuck_once i y.locks h)

held_twice :
    (d : ℕ) (l : List Client.LockCall)
    → held l ≡ some (d ∷ [])
    → held (release d ∷ release d ∷ acquire d ∷ l) ≡ none
unfolding held has
held_twice d l h = simp h (ground arith)

add_dirent_stuck :
    (y : YfsClient) (d : ℕ) (name : Bytes)
    → HoldsOnly d y
    → held (Client.add_dirent y d d name).0.locks ≡ none
unfolding Client.add_dirent Client.put_both
add_dirent_stuck y d name h = ground (arith, held_twice d y.locks h)

enter_stuck :
    (y : YfsClient) (d : ℕ) (name : Bytes) → HoldsOnly d y → held (enter y d name d).0.locks ≡ none
unfolding enter
enter_stuck y d name h =
    let a = add_dirent_stuck y d name h in
    ground (arith, a, getattr_stuck (Client.add_dirent y d d name).0 d a)

-- When the random number for a new directory is that of its parent, and the name is new there, `mkdir`
-- waits for a lock that its own thread holds.
pub mkdir_own_number :
    (y : YfsClient) (d : ℕ) (name : Bytes) (rand : ℕ)
    → d ≡ dir_number rand
    → IsBalanced y
    → (Client.lookup y name d false).1 ≡ xx_ok
    → (Client.lookup y name d false).2 ≡ none
    → held (fuseserver_mkdir y d name rand).0.locks ≡ none
unfolding fuseserver_mkdir
mkdir_own_number y d name rand e h k f =
    let a = Client.lookup y name d false in
    let hold = lookup-HoldsOnly y name d h k in
    simp (k, f)
      (subst (λ i. held (enter a.0 d name i).0.locks ≡ none) e (enter_stuck a.0 d name hold))
