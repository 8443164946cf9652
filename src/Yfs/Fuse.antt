-- ===== src/Yfs/Fuse.antt =====
-- The handlers of FUSE requests (fuse.cc). A handler returns its replies to the kernel; the time-outs and
-- the generation of an entry, which are always zero, are left out. The first number other than 1 that
-- `random` gives is an argument, and so is the layout of an entry by `fuse_add_dirent`.
use ds.Common.{
  ℕ, ◌+◌, ◌-◌, ◌%◌, ◌^◌, Bool, true, false, List, [], ◌∷◌, ◌++◌, Option, none, some, Bytes,
  if◌then◌else◌, length, take, drop, ltb, nat_eq, span, is_some,
}
use ds.Yfs.Client
use ds.Yfs.Client.{
  YfsClient, XxStatus, xx_ok, xx_noent, xx_exist, isfile, isdir, release_lock, FileInfo, DirInfo,
  getfile, getdir, add_dirent, read_dir, set_size, read_file, write_file,
}

-- The error numbers of `fuse_reply_err`.
pub data Errno : Type 0 where
  no_error enoent eexist enosys enotdir : Errno

-- `struct stat`, as far as it is set
pub record Stat : Type 0 where
  pub st_ino : ℕ
  pub st_mode : ℕ
  pub st_nlink : ℕ
  pub st_atime : ℕ
  pub st_mtime : ℕ
  pub st_ctime : ℕ
  pub st_size : ℕ

-- The replies of the FUSE library: an entry has the number and the attributes of its file, and `statfs`
-- the longest name and the size of a block.
pub data Reply : Type 0 where
  reply_err : Errno → Reply
  reply_attr : Stat → Reply
  reply_buf : Bytes → Reply
  reply_write : ℕ → Reply
  reply_create reply_entry : ℕ → Stat → Reply
  reply_open : Reply
  reply_statfs : ℕ → ℕ → Reply

-- `bzero(&st, sizeof(st)); st.st_ino = inum;`
abbrev pub no_stat : ℕ → Stat
no_stat inum = record {
  st_ino = inum;
  st_mode = 0;
  st_nlink = 0;
  st_atime = 0;
  st_mtime = 0;
  st_ctime = 0;
  st_size = 0;
}

-- `S_IFREG | 0666`
abbrev pub file_mode : ℕ
file_mode = 33206

-- `S_IFDIR | 0777`
abbrev pub dir_mode : ℕ
dir_mode = 16895

abbrev pub file_stat : ℕ → Option FileInfo → Stat
file_stat inum none = no_stat inum
file_stat inum (some i) = record {
  st_ino = inum;
  st_mode = file_mode;
  st_nlink = 1;
  st_atime = i.atime;
  st_mtime = i.mtime;
  st_ctime = i.ctime;
  st_size = i.size;
}

abbrev pub dir_stat : ℕ → Option DirInfo → Stat
dir_stat inum none = no_stat inum
dir_stat inum (some i) = record {
  st_ino = inum;
  st_mode = dir_mode;
  st_nlink = 2;
  st_atime = i.atime;
  st_mtime = i.mtime;
  st_ctime = i.ctime;
  st_size = 0;
}

abbrev pub is_xx_ok : XxStatus → Bool
is_xx_ok xx_ok = true
is_xx_ok _ = false

-- `getattr`
unfoldable pub getattr : YfsClient → ℕ → YfsClient × XxStatus × Stat
getattr y inum =
    let (yf, rf, f) = getfile y inum in
    let (yd, rd, d) = getdir y inum in
    if isfile inum then (yf, rf, file_stat inum f) else (yd, rd, dir_stat inum d)

-- `fuseserver_getattr`
unfoldable pub fuseserver_getattr : YfsClient → ℕ → YfsClient × Reply
fuseserver_getattr y ino =
    let (y1, ret, st) = getattr y ino in
    (y1, if is_xx_ok ret then reply_attr st else reply_err enoent)

-- `fuseserver_setattr`, by whether `FUSE_SET_ATTR_SIZE` is in `to_set`; the size is cut to 32 bits.
unfoldable pub fuseserver_setattr : YfsClient → ℕ → Bool → ℕ → YfsClient × Reply
fuseserver_setattr y ino to_set st_size =
    let (y1, ret) = set_size y ino (st_size % 2 ^ 32) in
    let (y2, r, st) = getattr y1 ino in
    if to_set
    then (if is_xx_ok ret then (y2, reply_attr st) else (y1, reply_err enoent))
    else (y, reply_err enosys)

-- `fuseserver_read`: size and offset are cut to 32 bits.
unfoldable pub fuseserver_read : YfsClient → ℕ → ℕ → ℕ → YfsClient × Reply
fuseserver_read y ino size off =
    let (y1, ret, buf) = read_file y ino (off % 2 ^ 32) (size % 2 ^ 32) [] in
    (y1, if is_xx_ok ret then reply_buf buf else reply_err enoent)

-- `fuseserver_write` of the `size` bytes of a buffer.
unfoldable pub fuseserver_write : YfsClient → ℕ → Bytes → ℕ → YfsClient × Reply
fuseserver_write y ino buf off =
    let (y1, ret) = write_file y ino (off % 2 ^ 32) (length buf % 2 ^ 32) buf in
    (y1, if is_xx_ok ret then reply_write (length buf) else reply_err enoent)

-- The number of a new file: 32 bits, with the 31st set.
abbrev pub file_number : ℕ → ℕ
file_number r = let low = r % 2 ^ 32 in if ltb low (2 ^ 31) then low + 2 ^ 31 else low

-- The number of a new directory: 31 bits.
abbrev pub dir_number : ℕ → ℕ
dir_number r = r % 2 ^ 31

-- The end of `fuseserver_createhelper` and of `fuseserver_mkdir`, for the number chosen.
unfoldable pub enter : YfsClient → ℕ → Bytes → ℕ → YfsClient × XxStatus × Stat
enter y parent name ino =
    let (y1, ret) = add_dirent y parent ino name in
    let (y2, r, st) = getattr y1 ino in
    if is_xx_ok ret then (y2, xx_ok, st) else (y1, xx_noent, no_stat ino)

-- `fuseserver_createhelper`, for the first number other than 1 that `random` gives.
unfoldable pub fuseserver_createhelper : YfsClient → ℕ → Bytes → ℕ → YfsClient × XxStatus × Stat
unfolding enter
fuseserver_createhelper y parent name rand =
    let ino = file_number rand in
    let (y1, ret, found) = Client.lookup y name parent false in
    let made = enter y1 parent name ino in
    if is_xx_ok ret
    then (if is_some found then (release_lock y1 parent, xx_exist, no_stat ino) else made)
    else (y1, ret, no_stat ino)

abbrev pub created : (ℕ → Stat → Reply) → ℕ → YfsClient × XxStatus × Stat → YfsClient × Reply
created reply ino (y, xx_ok, st) = (y, reply ino st)
created reply ino (y, xx_exist, st) = (y, reply_err eexist)
created reply ino (y, _, st) = (y, reply_err enoent)

-- `fuseserver_create`
unfoldable pub fuseserver_create : YfsClient → ℕ → Bytes → ℕ → YfsClient × Reply
fuseserver_create y parent name rand =
    created reply_create (file_number rand) (fuseserver_createhelper y parent name rand)

-- `fuseserver_mknod`
unfoldable pub fuseserver_mknod : YfsClient → ℕ → Bytes → ℕ → YfsClient × Reply
fuseserver_mknod y parent name rand =
    created reply_entry (file_number rand) (fuseserver_createhelper y parent name rand)

abbrev pub looked : YfsClient → Option ℕ → YfsClient × Reply
looked y none = (y, reply_err enoent)
looked y (some ino) = let (y1, r, st) = getattr y ino in (y1, reply_entry ino st)

-- `fuseserver_lookup`
unfoldable pub fuseserver_lookup : YfsClient → ℕ → Bytes → YfsClient × Reply
fuseserver_lookup y parent name =
    let (y1, ret, found) = Client.lookup y name parent true in
    if is_xx_ok ret then looked y1 found else (y1, reply_err enoent)

-- `fuseserver_open`
unfoldable pub fuseserver_open : YfsClient → ℕ → YfsClient × Reply
fuseserver_open y ino = (y, reply_open)

-- `fuseserver_mkdir`
unfoldable pub fuseserver_mkdir : YfsClient → ℕ → Bytes → ℕ → YfsClient × Reply
unfolding enter
fuseserver_mkdir y parent name rand =
    let ino = dir_number rand in
    let (y1, ret, found) = Client.lookup y name parent false in
    let (y2, made, st) = enter y1 parent name ino in
    if is_xx_ok ret
    then (if is_some found
        then (release_lock y1 parent, reply_err eexist)
        else (y2, if is_xx_ok made then reply_entry ino st else reply_err enosys))
    else (y1, reply_err enosys)

abbrev pub unlinked : YfsClient → ℕ → Bytes → Option ℕ → YfsClient × Reply
unlinked y parent name none = (release_lock y parent, reply_err enoent)
unlinked y parent name (some ino) =
    let (y1, ret) = Client.unlink y parent ino name in
    if isfile ino
    then (y1, if is_xx_ok ret then reply_err no_error else reply_err enosys)
    else (release_lock y parent, reply_err enosys)

-- `fuseserver_unlink`
unfoldable pub fuseserver_unlink : YfsClient → ℕ → Bytes → YfsClient × Reply
fuseserver_unlink y parent name =
    let (y1, ret, found) = Client.lookup y name parent false in
    if is_xx_ok ret then unlinked y1 parent name found else (y1, reply_err enosys)

-- `fuseserver_statfs`
unfoldable pub fuseserver_statfs : YfsClient → YfsClient × Reply
fuseserver_statfs y = (y, reply_statfs 255 512)

-- `c_str()`: the bytes before a null byte.
abbrev pub c_str : Bytes → Bytes
c_str s = (span (λ c. nat_eq c 0) s).0

-- `reply_buf_limited`
abbrev pub reply_buf_limited : Bytes → ℕ → ℕ → Reply
reply_buf_limited buf off maxsize =
    if ltb off (length buf)
    then (let left = length buf - off in
        reply_buf (take (if ltb left maxsize then left else maxsize) (drop off buf)))
    else reply_buf []

-- The bytes that `fuse_add_dirent` makes of a name and a number.
module _ (fuse_dirent : Bytes → ℕ → Bytes) where
  -- `dirbuf_add`
  abbrev pub dirbuf_add : Bytes → Bytes → ℕ → Bytes
  dirbuf_add b name ino = b ++ fuse_dirent name ino

  -- The loop of `fuseserver_readdir`.
  unfoldable pub dirbuf : Bytes → List (Bytes × ℕ) → Bytes
  dirbuf b [] = b
  dirbuf b ((name, inum) ∷ rest) = dirbuf (dirbuf_add b (c_str name) inum) rest

  -- `fuseserver_readdir`
  unfoldable pub fuseserver_readdir : YfsClient → ℕ → ℕ → ℕ → YfsClient × Reply
  unfolding dirbuf
  fuseserver_readdir y ino size off =
      let (y1, ret, names) = read_dir y ino in
      if isdir ino
      then (
        y1,
        if is_xx_ok ret then reply_buf_limited (dirbuf [] names) off size else reply_err enoent,
      )
      else (y, reply_err enotdir)

-- A request of the kernel, with the number that is drawn for a new file.
pub data FuseRequest : Type 0 where
  getattr_request open_request : ℕ → FuseRequest
  setattr_request : ℕ → Bool → ℕ → FuseRequest
  read_request : ℕ → ℕ → ℕ → FuseRequest
  write_request : ℕ → Bytes → ℕ → FuseRequest
  create_request mknod_request mkdir_request : ℕ → Bytes → ℕ → FuseRequest
  lookup_request unlink_request : ℕ → Bytes → FuseRequest
  readdir_request : ℕ → ℕ → ℕ → FuseRequest
  statfs_request : FuseRequest

-- The handlers that `main` enters in `fuseserver_oper`.
unfoldable pub handle : (Bytes → ℕ → Bytes) → YfsClient → FuseRequest → YfsClient × Reply
handle dirent y (getattr_request ino) = fuseserver_getattr y ino
handle dirent y (open_request ino) = fuseserver_open y ino
handle dirent y (setattr_request ino to_set size) = fuseserver_setattr y ino to_set size
handle dirent y (read_request ino size off) = fuseserver_read y ino size off
handle dirent y (write_request ino buf off) = fuseserver_write y ino buf off
handle dirent y (create_request parent name rand) = fuseserver_create y parent name rand
handle dirent y (mknod_request parent name rand) = fuseserver_mknod y parent name rand
handle dirent y (mkdir_request parent name rand) = fuseserver_mkdir y parent name rand
handle dirent y (lookup_request parent name) = fuseserver_lookup y parent name
handle dirent y (unlink_request parent name) = fuseserver_unlink y parent name
handle dirent y (readdir_request ino size off) = fuseserver_readdir dirent y ino size off
handle dirent y statfs_request = fuseserver_statfs y
