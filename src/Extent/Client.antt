-- ===== src/Extent/Client.antt =====
-- The extent client (extent_client.cc): a write-back cache of files and attributes in front of the
-- extent server. The caller holds the lock of the extent, so that an operation is one step.
pub mod Content
pub mod Flush
pub mod Missing
pub mod Removal
use ds.Common.{
  ℕ, ◌%◌, ◌^◌, ◌≡◌, Bool, true, false, List, [], ◌∷◌, Option, none, some, Bytes, Map, insert,
  lookup, erase, value_or, or_else, nat_Eq, length, if◌then◌else◌,
}
use ds.Extent
use ds.Extent.{Status, Attr, no_attr}

-- `extent_client::cacheFileEnt`
pub record CacheFileEnt : Type 0 where
  pub file_ext : Bytes
  pub dirty : Bool

-- What `cacheFiles[eid]` makes of a missing file.
abbrev pub no_file : CacheFileEnt
no_file = record { file_ext = []; dirty = false }

-- The client with the server behind its RPCs. `net` says of the calls to come whether the server
-- executes and answers them, all if it is empty; `now` is the time and `junk` an unset `attr`.
pub record Client : Type 0 where
  pub cache_files : Map ℕ CacheFileEnt
  pub cache_attrs : Map ℕ Attr
  pub server : Extent.Server
  pub net : List Bool
  pub now : ℕ
  pub junk : Attr

-- What a call returns: the status of the handler, or the failure of the RPC.
pub data Ret : Type 0 where
  answered : Status → Ret
  failed : Ret

abbrev pub is_ok : Ret → Bool
is_ok (answered Status.ok) = true
is_ok (answered Status.rpcerr) = false
is_ok (answered Status.noent) = false
is_ok (answered Status.ioerr) = false
is_ok failed = false

abbrev pub answers : List Bool → Bool
answers [] = true
answers (b ∷ bs) = b

abbrev pub rest : List Bool → List Bool
rest [] = []
rest (b ∷ bs) = bs

-- `cl->call(extent_protocol::get, eid, buf)`
unfoldable pub call_get : Client → ℕ → Client × Ret × Option Bytes
call_get c eid =
    let (sv, st, buf) = Extent.get c.server eid c.now in
    if answers c.net
    then (record c { server = sv; net = rest c.net }, answered st, buf)
    else (record c { net = rest c.net }, failed, none)

-- `cl->call(extent_protocol::getattr, eid, attr)`
unfoldable pub call_getattr : Client → ℕ → Client × Ret × Option Attr
call_getattr c eid =
    let (st, a) = Extent.getattr c.server eid in
    if answers c.net
    then (record c { net = rest c.net }, answered st, a)
    else (record c { net = rest c.net }, failed, none)

-- `cl->call(extent_protocol::put, eid, buf, r)`
unfoldable pub call_put : Client → ℕ → Bytes → Client
call_put c eid buf =
    let sv = (Extent.put c.server eid buf c.now).0 in
    if answers c.net
    then record c { server = sv; net = rest c.net }
    else record c { net = rest c.net }

-- `cl->call(extent_protocol::remove, eid, r)`
unfoldable pub call_remove : Client → ℕ → Client
call_remove c eid =
    let sv = (Extent.remove c.server eid).0 in
    if answers c.net
    then record c { server = sv; net = rest c.net }
    else record c { net = rest c.net }

abbrev pub cached_attr : Client → ℕ → Attr
cached_attr c eid = value_or no_attr eid c.cache_attrs

-- `get` of a file that is not cached: both calls, and both results into the cache whatever they say.
unfoldable pub get_missed : Client → ℕ → Bytes → Client × Ret × Bytes
unfolding call_get call_getattr
get_missed c eid buf =
    let (c1, r1, b) = call_get c eid in
    let (c2, r2, a) = call_getattr c1 eid in
    let got = or_else buf b in
    (
      record c2 {
        cache_files = insert eid (record { file_ext = got; dirty = false }) c2.cache_files;
        cache_attrs = insert eid (or_else c.junk a) c2.cache_attrs;
      },
      r2,
      got,
    )

-- `get` by the cached file that `cacheFiles.find(eid)` gives.
unfoldable pub get_found : Client → ℕ → Bytes → Option CacheFileEnt → Client × Ret × Bytes
unfolding get_missed
get_found c eid buf none = get_missed c eid buf
get_found c eid buf (some e) = (
  record c {
    cache_attrs = insert eid (record (cached_attr c eid) { atime = c.now }) c.cache_attrs;
  },
  answered Status.ok,
  e.file_ext,
)

-- `extent_client::get`: `buf` is what the caller's string holds before.
unfoldable pub get : Client → ℕ → Bytes → Client × Ret × Bytes
unfolding get_found
get c eid buf = get_found c eid buf (lookup eid c.cache_files)

unfoldable pub getattr_missed : Client → ℕ → Client × Ret × Attr
unfolding call_getattr
getattr_missed c eid =
    let (c1, r, a) = call_getattr c eid in
    (record c1 { cache_attrs = insert eid (or_else c.junk a) c1.cache_attrs }, r, or_else c.junk a)

unfoldable pub getattr_found : Client → ℕ → Option Attr → Client × Ret × Attr
unfolding getattr_missed
getattr_found c eid none = getattr_missed c eid
getattr_found c eid (some a) = (c, answered Status.ok, a)

-- `extent_client::getattr`
unfoldable pub getattr : Client → ℕ → Client × Ret × Attr
unfolding getattr_found
getattr c eid = getattr_found c eid (lookup eid c.cache_attrs)

-- The attributes that `put` caches of a file without cached ones, by the reply of the server.
abbrev pub new_attr : Client → Bytes → Ret → Option Attr → Attr
new_attr c buf r a =
    let size = length buf % 2 ^ 32 in
    if is_ok r
    then record { atime = (or_else c.junk a).atime; mtime = c.now; ctime = c.now; size = size }
    else record { atime = c.now; mtime = c.now; ctime = c.now; size = size }

unfoldable pub put_attr : Client → ℕ → Bytes → Option Attr → Client
unfolding call_getattr
put_attr c eid buf none =
    let (c1, r, a) = call_getattr c eid in
    record c1 { cache_attrs = insert eid (new_attr c buf r a) c1.cache_attrs }
put_attr c eid buf (some a) = record c {
  cache_attrs =
      insert eid (record a { mtime = c.now; ctime = c.now; size = length buf % 2 ^ 32 })
        c.cache_attrs;
}

-- `extent_client::put`
unfoldable pub put : Client → ℕ → Bytes → Client × Ret
unfolding put_attr
put c eid buf =
    let c1 = record c {
      cache_files = insert eid (record { file_ext = buf; dirty = true }) c.cache_files;
    } in
    (put_attr c1 eid buf (lookup eid c.cache_attrs), answered Status.ok)

-- `extent_client::remove`: the server is not told.
unfoldable pub remove : Client → ℕ → Client × Ret
remove c eid = (
  record c { cache_files = erase eid c.cache_files; cache_attrs = erase eid c.cache_attrs },
  answered Status.ok,
)

abbrev pub dropped : Client → ℕ → Client
dropped c eid = record c {
  cache_files = erase eid c.cache_files;
  cache_attrs = erase eid c.cache_attrs;
}

-- `flush` by the cached file and the cached attributes: without either the file is removed from the
-- server.
unfoldable pub flush_found : Client → ℕ → Option CacheFileEnt → Option Attr → Client
unfolding call_put call_remove
flush_found c eid none none = call_remove c eid
flush_found c eid none (some a) = record c { cache_attrs = erase eid c.cache_attrs }
flush_found c eid (some e) a =
    let d = dropped c eid in
    let written = call_put d eid e.file_ext in if e.dirty then written else d

-- `extent_client::flush`
unfoldable pub flush : Client → ℕ → Client
unfolding flush_found
flush c eid = flush_found c eid (lookup eid c.cache_files) (lookup eid c.cache_attrs)
