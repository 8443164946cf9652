-- ===== src/Extent.antt =====
-- The extent server (extent_server.cc). Each handler holds the mutex from its start to its end, so
-- that it is one step; the time that it reads from the clock is an argument.
pub mod Kept
pub mod Client
use ds.Common.{
  ℕ, ◌%◌, ◌^◌, ◌≡◌, Bool, true, false, List, [], ◌∷◌, Option, none, some, Bytes, Map, insert,
  lookup, erase, value_or, nat_Eq, length,
}

-- `extent_protocol::xxstatus`
pub data Status : Type 0 where
  ok rpcerr noent ioerr : Status

-- `extent_protocol::attr`
pub record Attr : Type 0 where
  pub atime : ℕ
  pub mtime : ℕ
  pub ctime : ℕ
  pub size : ℕ

-- What `fileAttrs[id]` makes of a missing id.
abbrev pub no_attr : Attr
no_attr = record { atime = 0; mtime = 0; ctime = 0; size = 0 }

pub record Server : Type 0 where
  pub files : Map ℕ Bytes
  pub file_attrs : Map ℕ Attr

abbrev pub attr : Server → ℕ → Attr
attr s id = value_or no_attr id s.file_attrs

-- `extent_server::extent_server`
unfoldable pub server : ℕ → Server
server now = record {
  files = (1, []) ∷ [];
  file_attrs = (1, record { atime = now; mtime = now; ctime = now; size = 0 }) ∷ [];
}

-- The times that `put` sets, by the file that `files.find(id)` gives.
unfoldable pub put_times : Attr → ℕ → Option Bytes → Attr
put_times a now none = record a { atime = now; mtime = now; ctime = now }
put_times a now (some old) = record a { mtime = now; ctime = now }

-- `extent_server::put`
unfoldable pub put : Server → ℕ → Bytes → ℕ → Server × Status
unfolding put_times
put s id buf now =
    let timed = put_times (attr s id) now (lookup id s.files) in
    (
      record {
        files = insert id buf s.files;
        file_attrs = insert id (record timed { size = length buf % 2 ^ 32 }) s.file_attrs;
      },
      Status.ok,
    )

-- `get` by the file that `files.find(id)` gives; without a file the buffer stays as it is.
unfoldable pub get_found : Server → ℕ → ℕ → Option Bytes → Server × Status × Option Bytes
get_found s id now none = (s, Status.noent, none)
get_found s id now (some buf) = (
  record s { file_attrs = insert id (record (attr s id) { atime = now }) s.file_attrs },
  Status.ok,
  some buf,
)

-- `extent_server::get`
unfoldable pub get : Server → ℕ → ℕ → Server × Status × Option Bytes
unfolding get_found
get s id now = get_found s id now (lookup id s.files)

unfoldable pub getattr_found : Option Attr → Status × Option Attr
getattr_found none = (Status.ioerr, none)
getattr_found (some a) = (Status.ok, some a)

-- `extent_server::getattr`
unfoldable pub getattr : Server → ℕ → Status × Option Attr
unfolding getattr_found
getattr s id = getattr_found (lookup id s.file_attrs)

-- `remove` by what `files.find(id)` and `fileAttrs.find(id)` give.
unfoldable pub remove_found : Server → ℕ → Option Bytes → Option Attr → Server × Status
remove_found s id none a = (s, Status.noent)
remove_found s id (some buf) none = (record s { files = erase id s.files }, Status.noent)
remove_found s id (some buf) (some a) =
    (record { files = erase id s.files; file_attrs = erase id s.file_attrs }, Status.ok)

-- `extent_server::remove`
unfoldable pub remove : Server → ℕ → Server × Status
unfolding remove_found
remove s id = remove_found s id (lookup id s.files) (lookup id s.file_attrs)

-- A request, with the time at which it is handled.
pub data Request : Type 0 where
  put_req : ℕ → Bytes → ℕ → Request
  get_req : ℕ → ℕ → Request
  getattr_req remove_req : ℕ → Request

unfoldable pub serve : Server → Request → Server
unfolding put get remove
serve s (Request.put_req id buf now) = (put s id buf now).0
serve s (Request.get_req id now) = (get s id now).0
serve s (Request.getattr_req id) = s
serve s (Request.remove_req id) = (remove s id).0

unfoldable pub serve_all : Server → List Request → Server
unfolding serve
serve_all s [] = s
serve_all s (r ∷ rs) = serve_all (serve s r) rs
