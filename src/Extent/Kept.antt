-- ===== src/Extent/Kept.antt =====
-- The files and attributes that the extent server holds after a history of requests
-- (extent_server.cc).
use ds.Common.{
  ℕ, ◌%◌, ◌^◌, ◌≡◌, refl, ◌∙◌, Bool, true, false, List, [], ◌∷◌, Option, none, some, Bytes, insert,
  lookup, or_else, subst, nat_Eq, nat_eq, length, if◌then◌else◌, arith, All, lookup-insert,
  lookup-erase, lookup-insert_self, Bool-cases, is_some, inl, inr,
}
use ds.Extent.{
  Status, Attr, no_attr, Server, attr, server, put_times, put, get_found, get, getattr_found,
  getattr, remove_found, remove, Request, serve, serve_all,
}

-- A file and its attributes: both are there or none is, and the size is that of the file.
unfoldable pub agree : Option Bytes → Option Attr → Bool
agree none none = true
agree none (some a) = false
agree (some buf) none = false
agree (some buf) (some a) = nat_eq a.size (length buf % 2 ^ 32)

abbrev pub IsConsistent : Server → Type 0
IsConsistent s = (id : ℕ) → agree (lookup id s.files) (lookup id s.file_attrs) ≡ true

pub put-IsConsistent :
    (s : Server) (id : ℕ) (buf : Bytes) (now : ℕ)
    → IsConsistent s
    → IsConsistent (put s id buf now).0
unfolding put agree
put-IsConsistent s id buf now h k = ground (
  arith,
  nat_Eq.beq_iff id k,
  lookup-insert {K = ℕ} id k buf s.files,
  lookup-insert {K = ℕ} id k
      (record (put_times (attr s id) now (lookup id s.files)) { size = length buf % 2 ^ 32 })
      s.file_attrs,
  h k,
)

agree_retimed :
    (o : Option Bytes) (a : Option Attr) (now : ℕ) (buf : Bytes)
    → o ≡ some buf
    → agree o a ≡ true
    → agree o (some (record (or_else no_attr a) { atime = now })) ≡ true
unfolding agree
agree_retimed none a now buf e h = cc
agree_retimed (some b) none now buf e h = cc
agree_retimed (some b) (some a) now buf e h = h

-- New times for the attributes of a file.
retimed :
    (s : Server) (id now : ℕ) (buf : Bytes)
    → lookup id s.files ≡ some buf
    → IsConsistent s
    → (k : ℕ)
    → agree
        (lookup k s.files)
        (lookup k (insert id (record (attr s id) { atime = now }) s.file_attrs))
      ≡ true
unfolding agree
retimed s id now buf e h k = elim (Bool-cases (nat_eq id k)) [
  | inl y ↦
      rw (lookup-insert {K = ℕ} id k (record (attr s id) { atime = now }) s.file_attrs, y)
        (subst (λ j. agree (lookup j s.files) (some (record (attr s id) { atime = now })) ≡ true)
          ((nat_Eq.beq_iff id k).0 y)
          (agree_retimed (lookup id s.files) (lookup id s.file_attrs) now buf e (h id)))
  | inr y ↦
      rw (lookup-insert {K = ℕ} id k (record (attr s id) { atime = now }) s.file_attrs, y) (h k)
]

pub get_found-IsConsistent :
    (s : Server) (id now : ℕ) (o : Option Bytes)
    → lookup id s.files ≡ o
    → IsConsistent s
    → IsConsistent (get_found s id now o).0
unfolding get_found
get_found-IsConsistent s id now none e h = h
get_found-IsConsistent s id now (some buf) e h = retimed s id now buf e h

pub remove_found-IsConsistent :
    (s : Server) (id : ℕ) (o : Option Bytes) (a : Option Attr)
    → lookup id s.files ≡ o
    → lookup id s.file_attrs ≡ a
    → IsConsistent s
    → IsConsistent (remove_found s id o a).0
unfolding remove_found agree
remove_found-IsConsistent s id none a e f h k = h k
remove_found-IsConsistent s id (some buf) none e f h k = ground (arith, h id)
remove_found-IsConsistent s id (some buf) (some a) e f h k =
    ground (arith, h k, lookup-erase {K = ℕ} id k s.files, lookup-erase {K = ℕ} id k s.file_attrs)

pub serve-IsConsistent : (s : Server) (r : Request) → IsConsistent s → IsConsistent (serve s r)
unfolding serve get remove
serve-IsConsistent s (Request.put_req id buf now) h = put-IsConsistent s id buf now h
serve-IsConsistent s (Request.get_req id now) h =
    get_found-IsConsistent s id now (lookup id s.files) refl h
serve-IsConsistent s (Request.getattr_req id) h = h
serve-IsConsistent s (Request.remove_req id) h =
    remove_found-IsConsistent s id (lookup id s.files) (lookup id s.file_attrs) refl refl h

serve_all-IsConsistent :
    (rs : List Request) (s : Server) → IsConsistent s → IsConsistent (serve_all s rs)
unfolding serve_all
serve_all-IsConsistent [] s h = h
serve_all-IsConsistent (r ∷ rs) s h =
    serve_all-IsConsistent rs (serve s r) (serve-IsConsistent s r h)

pub server-IsConsistent : (now : ℕ) → IsConsistent (server now)
unfolding server lookup agree
server-IsConsistent now k = ground (arith, nat_Eq.beq_iff 1 k)

-- Whether a request puts or removes a file.
abbrev pub changes : ℕ → Request → Bool
changes id (Request.put_req k buf now) = nat_eq k id
changes id (Request.get_req k now) = false
changes id (Request.getattr_req k) = false
changes id (Request.remove_req k) = nat_eq k id

pub get_found-files :
    (s : Server) (k now : ℕ) (o : Option Bytes) (id : ℕ)
    → lookup id (get_found s k now o).0.files ≡ lookup id s.files
unfolding get_found
get_found-files s k now none id = refl
get_found-files s k now (some buf) id = refl

pub remove_found-files :
    (s : Server) (k : ℕ) (o : Option Bytes) (a : Option Attr) (id : ℕ)
    → nat_eq k id ≡ false
    → lookup id (remove_found s k o a).0.files ≡ lookup id s.files
unfolding remove_found
remove_found-files s k none a id h = refl
remove_found-files s k (some buf) none id h = ground (arith, lookup-erase {K = ℕ} k id s.files)
remove_found-files s k (some buf) (some a) id h = ground (arith, lookup-erase {K = ℕ} k id s.files)

pub serve-files :
    (s : Server) (r : Request) (id : ℕ)
    → changes id r ≡ false
    → lookup id (serve s r).files ≡ lookup id s.files
unfolding serve put get remove
serve-files s (Request.put_req k buf now) id h =
    ground (arith, nat_Eq.beq_iff k id, lookup-insert {K = ℕ} k id buf s.files)
serve-files s (Request.get_req k now) id h = get_found-files s k now (lookup k s.files) id
serve-files s (Request.getattr_req k) id h = refl
serve-files s (Request.remove_req k) id h =
    remove_found-files s k (lookup k s.files) (lookup k s.file_attrs) id h

serve_all-files :
    (rs : List Request) (s : Server) (id : ℕ)
    → All (λ r. changes id r ≡ false) rs
    → lookup id (serve_all s rs).files ≡ lookup id s.files
unfolding serve_all
serve_all-files [] s id h = refl
serve_all-files (r ∷ rs) s id h = serve_all-files rs (serve s r) id h.1 ∙ serve-files s r id h.0

pub remove_found_lem :
    (s : Server) (id : ℕ) (o : Option Bytes) (a : Option Attr)
    → lookup id s.files ≡ o
    → lookup id s.file_attrs ≡ a
    → agree (lookup id s.files) (lookup id s.file_attrs) ≡ true
    → ((remove_found s id o a).1 ≡ (if is_some o then Status.ok else Status.noent))
      × (lookup id (remove_found s id o a).0.files ≡ none)
      × (lookup id (remove_found s id o a).0.file_attrs ≡ none)
unfolding remove_found agree
remove_found_lem s id none none e f h = (refl, e, f)
remove_found_lem s id none (some a) e f h = ground arith
remove_found_lem s id (some b) none e f h = ground arith
remove_found_lem s id (some b) (some a) e f h = (
  refl,
  ground (arith, nat_Eq.beq_iff id id, lookup-erase {K = ℕ} id id s.files),
  ground (arith, nat_Eq.beq_iff id id, lookup-erase {K = ℕ} id id s.file_attrs),
)

-- What `getattr` returns for a file that is there.
pub getattr-file :
    (s : Server) (id : ℕ) (buf : Bytes) (a : Option Attr)
    → lookup id s.files ≡ some buf
    → lookup id s.file_attrs ≡ a
    → agree (lookup id s.files) (lookup id s.file_attrs) ≡ true
    → (b : Attr) × ((getattr s id ≡ (Status.ok, some b)) × (b.size ≡ length buf % 2 ^ 32))
unfolding getattr getattr_found agree
getattr-file s id buf none e f h = ground arith
getattr-file s id buf (some a) e f h = (a, (rw f refl, ground arith))

pub put-file :
    (s : Server) (id : ℕ) (buf : Bytes) (now : ℕ) → lookup id (put s id buf now).0.files ≡ some buf
unfolding put
put-file s id buf now = lookup-insert_self {K = ℕ} id buf s.files

-- What is put is what a later `get` returns, with OK, as long as nothing else puts or removes it,
-- and `getattr` then returns its length as an unsigned int; both after any requests from the start
-- of the server on.
pub put_kept :
    (now : ℕ) (before after : List Request) (id : ℕ) (buf : Bytes) (t u : ℕ)
    → All (λ r. changes id r ≡ false) after
    → let s = serve_all (put (serve_all (server now) before) id buf t).0 after in
      ((get s id u).1 ≡ Status.ok)
      × ((get s id u).2 ≡ some buf)
      × ((a : Attr) × ((getattr s id ≡ (Status.ok, some a)) × (a.size ≡ length buf % 2 ^ 32)))
unfolding get get_found
put_kept now before after id buf t u h =
    let p = serve_all (server now) before in
    let q = (put p id buf t).0 in
    let s = serve_all q after in
    let e = serve_all-files after q id h ∙ put-file p id buf t in
    let c = serve_all-IsConsistent after q (
      put-IsConsistent p id buf t
        (serve_all-IsConsistent before (server now) (server-IsConsistent now))) in
    (rw e refl, rw e refl, getattr-file s id buf (lookup id s.file_attrs) e refl (c id))

-- After any requests from the start of the server on, `remove` returns OK where the file is there
-- and NOENT where it is not, and no file or attributes are there for the id afterwards.
pub remove_lem :
    (now : ℕ) (rs : List Request) (id : ℕ)
    → let s = serve_all (server now) rs in
      ((remove s id).1 ≡ (if is_some (lookup id s.files) then Status.ok else Status.noent))
      × (lookup id (remove s id).0.files ≡ none)
      × (lookup id (remove s id).0.file_attrs ≡ none)
unfolding remove
remove_lem now rs id =
    let s = serve_all (server now) rs in
    remove_found_lem s id (lookup id s.files) (lookup id s.file_attrs) refl refl
      (serve_all-IsConsistent rs (server now) (server-IsConsistent now) id)
