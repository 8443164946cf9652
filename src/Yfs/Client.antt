-- ===== src/Yfs/Client.antt =====
-- The operations of the file system client (yfs_client.cc) on the extent client, between the calls of
-- the lock client that they make. `ec->put` and `ec->remove` never fail in this program; their failure
-- branches are kept.
use ds.Common.{
  zero, suc, ℕ, ◌+◌, ◌-◌, ◌%◌, ◌^◌, Bool, not, List, [], ◌∷◌, ◌++◌, Option, none, some, Bytes,
  if◌then◌else◌, length, take, drop, replicate, ltb, leb,
}
use ds.Extent.{Attr}
use ds.Extent.Client
use ds.Extent.Client.{is_ok}
use ds.Yfs.Directory.{entries, find, keep, dirents, appended}

-- `yfs_client::xxstatus`
pub data XxStatus : Type 0 where
  xx_ok xx_rpcerr xx_noent xx_ioerr xx_exist : XxStatus

-- The calls of the lock client.
pub data LockCall : Type 0 where
  acquire release : ℕ → LockCall

-- `locks` holds the calls so far, the last one first. `unread` is what a failed `>>` leaves in a number.
pub record YfsClient : Type 0 where
  pub ec : Client.Client
  pub locks : List LockCall
  pub unread : ℕ

abbrev pub acquired : YfsClient → ℕ → YfsClient
acquired y inum = record y { locks = acquire inum ∷ y.locks }

-- `yfs_client::releaseLock`
abbrev pub release_lock : YfsClient → ℕ → YfsClient
release_lock y inum = record y { locks = release inum ∷ y.locks }

-- `yfs_client::isfile`
abbrev pub isfile : ℕ → Bool
isfile inum = leb (2 ^ 31) (inum % 2 ^ 32)

-- `yfs_client::isdir`
abbrev pub isdir : ℕ → Bool
isdir inum = not (isfile inum)

-- `yfs_client::fileinfo`
pub record FileInfo : Type 0 where
  pub size : ℕ
  pub atime : ℕ
  pub mtime : ℕ
  pub ctime : ℕ

-- `yfs_client::dirinfo`
pub record DirInfo : Type 0 where
  pub atime : ℕ
  pub mtime : ℕ
  pub ctime : ℕ

abbrev pub file_info : Attr → FileInfo
file_info a = record { size = a.size; atime = a.atime; mtime = a.mtime; ctime = a.ctime }

abbrev pub dir_info : Attr → DirInfo
dir_info a = record { atime = a.atime; mtime = a.mtime; ctime = a.ctime }

-- `yfs_client::getfile`: without an answer `fin` is not set.
unfoldable pub getfile : YfsClient → ℕ → YfsClient × XxStatus × Option FileInfo
getfile y inum =
    let y1 = acquired y inum in
    let (c, r, a) = Client.getattr y1.ec inum in
    let y2 = release_lock (record y1 { ec = c }) inum in
    if is_ok r then (y2, xx_ok, some (file_info a)) else (y2, xx_ioerr, none)

-- `yfs_client::getdir`
unfoldable pub getdir : YfsClient → ℕ → YfsClient × XxStatus × Option DirInfo
getdir y inum =
    let y1 = acquired y inum in
    let (c, r, a) = Client.getattr y1.ec inum in
    let y2 = release_lock (record y1 { ec = c }) inum in
    if is_ok r then (y2, xx_ok, some (dir_info a)) else (y2, xx_ioerr, none)

-- `yfs_client::lookup`: the number of the child if it is found. Only with `single_op`, or without a
-- directory, is the lock of the parent released.
unfoldable pub lookup : YfsClient → Bytes → ℕ → Bool → YfsClient × XxStatus × Option ℕ
lookup y name parent single_op =
    let y1 = acquired y parent in
    let (c, r, dir) = Client.get y1.ec parent [] in
    let y2 = record y1 { ec = c } in
    if is_ok r
    then (
      if single_op then release_lock y2 parent else y2,
      xx_ok,
      find y2.unread name (entries dir),
    )
    else (release_lock y2 parent, xx_noent, none)

-- The calls of `ec->put` one after the other, as long as they succeed.
unfoldable pub put_both : YfsClient → ℕ → Bytes → ℕ → Bytes → YfsClient × XxStatus
put_both y dir_inum dir file_inum file =
    let (c1, r1) = Client.put y.ec dir_inum dir in
    let (c2, r2) = Client.put c1 file_inum file in
    if is_ok r1
    then (record y { ec = c2 }, if is_ok r2 then xx_ok else xx_rpcerr)
    else (record y { ec = c1 }, xx_rpcerr)

-- `yfs_client::addDirent`, under the lock of the directory
unfoldable pub add_dirent : YfsClient → ℕ → ℕ → Bytes → YfsClient × XxStatus
unfolding put_both
add_dirent y dir_inum file_inum name =
    let y1 = acquired y file_inum in
    let (c, r, old_ext) = Client.get y1.ec dir_inum [] in
    let y2 = record y1 { ec = c } in
    let (y3, st) = put_both y2 dir_inum (appended old_ext name file_inum) file_inum [] in
    if is_ok r
    then (release_lock (release_lock y3 file_inum) dir_inum, st)
    else (release_lock (release_lock y2 file_inum) dir_inum, xx_noent)

unfoldable pub put_remove : YfsClient → ℕ → Bytes → ℕ → YfsClient × XxStatus
put_remove y dir_inum dir file_inum =
    let (c1, r1) = Client.put y.ec dir_inum dir in
    let (c2, r2) = Client.remove c1 file_inum in
    if is_ok r1
    then (record y { ec = c2 }, if is_ok r2 then xx_ok else xx_ioerr)
    else (record y { ec = c1 }, xx_rpcerr)

-- `yfs_client::unlink`, under the lock of the directory
unfoldable pub unlink : YfsClient → ℕ → ℕ → Bytes → YfsClient × XxStatus
unfolding put_remove
unlink y dir_inum file_inum name =
    let y1 = acquired y file_inum in
    let (c, r, dir) = Client.get y1.ec dir_inum [] in
    let y2 = record y1 { ec = c } in
    let (y3, st) = put_remove y2 dir_inum (keep name (entries dir)) file_inum in
    if is_ok r
    then (release_lock (release_lock y3 file_inum) dir_inum, st)
    else (release_lock (release_lock y2 file_inum) dir_inum, xx_noent)

-- `yfs_client::readDir`
unfoldable pub read_dir : YfsClient → ℕ → YfsClient × XxStatus × List (Bytes × ℕ)
read_dir y dir_inum =
    let y1 = acquired y dir_inum in
    let (c, r, dir) = Client.get y1.ec dir_inum [] in
    let y2 = release_lock (record y1 { ec = c }) dir_inum in
    if is_ok r then (y2, xx_ok, dirents y2.unread (entries dir)) else (y2, xx_noent, [])

-- The file that `setSize` writes.
abbrev pub resized : Bytes → ℕ → Bytes
resized file zero = []
resized file (suc n) =
    if leb (suc n) (length file)
    then take (suc n) file
    else file ++ replicate (suc n - length file) 0

-- An operation that replaces a file under its lock.
unfoldable pub rewrite : YfsClient → ℕ → (Bytes → Bytes) → YfsClient × XxStatus
rewrite y ino new =
    let y1 = acquired y ino in
    let (c, r, file) = Client.get y1.ec ino [] in
    let y2 = record y1 { ec = c } in
    let (c2, r2) = Client.put c ino (new file) in
    if is_ok r
    then (release_lock (record y2 { ec = c2 }) ino, if is_ok r2 then xx_ok else xx_rpcerr)
    else (release_lock y2 ino, xx_noent)

-- `yfs_client::setSize`
unfoldable pub set_size : YfsClient → ℕ → ℕ → YfsClient × XxStatus
unfolding rewrite
set_size y ino size = rewrite y ino (λ file. resized file size)

-- The part of a file that `readFile` returns.
unfoldable pub part : Bytes → ℕ → ℕ → Bytes
part file off size =
    if leb (length file) off
    then []
    else if ltb (length file - off) size
    then take (length file - off) (drop off file)
    else take size (drop off file)

-- `yfs_client::readFile`: `buf` is what the caller's string holds before.
unfoldable pub read_file : YfsClient → ℕ → ℕ → ℕ → Bytes → YfsClient × XxStatus × Bytes
unfolding part
read_file y ino off size buf =
    let y1 = acquired y ino in
    let (c, r, file) = Client.get y1.ec ino [] in
    let y2 = release_lock (record y1 { ec = c }) ino in
    if is_ok r then (y2, xx_ok, part file off size) else (y2, xx_noent, buf)

-- The file that `writeFile` writes: `off + size` is a sum of 32-bit numbers.
unfoldable pub spliced : Bytes → ℕ → ℕ → Bytes → Bytes
spliced file off size buf =
    let behind = (off + size) % 2 ^ 32 in
    if leb (length file) off
    then file ++ (replicate (off - length file) 0 ++ buf)
    else if ltb behind (length file)
    then take off file ++ (buf ++ take (length file - behind) (drop behind file))
    else take off file ++ buf

-- `yfs_client::writeFile`
unfoldable pub write_file : YfsClient → ℕ → ℕ → ℕ → Bytes → YfsClient × XxStatus
unfolding rewrite spliced
write_file y ino off size buf = rewrite y ino (λ file. spliced file off size buf)
