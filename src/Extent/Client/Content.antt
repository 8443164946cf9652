-- ===== src/Extent/Client/Content.antt =====
-- The files that a user of the extent client sees, in the cache or behind it (extent_client.cc).
use ds.Common.{
  ℕ, ◌≡◌, refl, sym, Bool, true, false, ◌&&◌, ◌||◌, List, [], ◌∷◌, Option, none, some, Bytes,
  insert, lookup, or_else, subst, nat_Eq, nat_eq, bytes_Eq, ◌==◌, if◌then◌else◌, arith,
  lookup-insert, is_some,
}
use ds.Extent
use ds.Extent.{Status, Attr, no_attr}
use ds.Extent.Kept.{IsConsistent, get_found-IsConsistent, getattr-file}
use ds.Extent.Client.{
  CacheFileEnt, Client, answered, is_ok, answers, rest, call_get, call_getattr, call_put,
  call_remove, get_missed, get_found, get, getattr_missed, getattr_found, getattr, put_attr, put,
  cached_attr, new_attr,
}

-- What is seen of a file: the cached one, or else that of the server.
unfoldable pub seen : Option CacheFileEnt → Option Bytes → Option Bytes
seen none o = o
seen (some e) o = some e.file_ext

abbrev pub content : Client → ℕ → Option Bytes
content c id = seen (lookup id c.cache_files) (lookup id c.server.files)

-- A cached file that is not dirty is that of the server.
unfoldable pub coherent : Option CacheFileEnt → Option Bytes → Bool
coherent none o = true
coherent (some e) none = e.dirty
coherent (some e) (some b) = e.dirty || (e.file_ext == b)

-- All calls to come are answered.
unfoldable pub all_answer : List Bool → Bool
all_answer [] = true
all_answer (b ∷ bs) = b && all_answer bs

-- What the client relies on: all calls are answered, clean files are those of the server, a cached
-- file has cached attributes, and the server's two maps agree.
pub record IsValid (c : Client) : Type 0 where
  pub net : all_answer c.net ≡ true
  pub clean : (id : ℕ) → coherent (lookup id c.cache_files) (lookup id c.server.files) ≡ true
  pub known :
      (id : ℕ) → is_some (lookup id c.cache_files) ≡ true → is_some (lookup id c.cache_attrs) ≡ true
  pub server : IsConsistent c.server

pub all_answer-rest :
    (n : List Bool) → all_answer n ≡ true → (answers n ≡ true) × (all_answer (rest n) ≡ true)
unfolding all_answer
all_answer-rest [] h = (refl, refl)
all_answer-rest (b ∷ bs) h = (ground arith, ground arith)

-- What an answered call leaves and returns.
module _ (c : Client) (eid : ℕ) (h : all_answer c.net ≡ true) where
  call_get_lem :
      (b : Bytes)
      → lookup eid c.server.files ≡ some b
      → call_get c eid ≡ (
        record c {
          server = record c.server {
            file_attrs =
                insert eid
                  (record (Extent.attr c.server eid) { atime = c.now })
                  c.server.file_attrs;
          };
          net = rest c.net;
        },
        answered Status.ok,
        some b,
      )
  unfolding call_get Extent.get Extent.get_found
  call_get_lem b e = simp (e, (all_answer-rest c.net h).0) refl

  call_getattr_lem : call_getattr c eid ≡ (
    record c { net = rest c.net },
    answered (Extent.getattr c.server eid).0,
    (Extent.getattr c.server eid).1,
  )
  unfolding call_getattr
  call_getattr_lem = simp ((all_answer-rest c.net h).0) refl

  call_put_lem :
      (buf : Bytes)
      → call_put c eid buf
        ≡ record c { server = (Extent.put c.server eid buf c.now).0; net = rest c.net }
  unfolding call_put
  call_put_lem buf = simp ((all_answer-rest c.net h).0) refl

  call_remove_lem :
      call_remove c eid ≡ record c { server = (Extent.remove c.server eid).0; net = rest c.net }
  unfolding call_remove
  call_remove_lem = simp ((all_answer-rest c.net h).0) refl

-- The client behind a `get` of a file that the server has, with its attributes.
abbrev pub fetched : Client → ℕ → Bytes → Attr → Client
fetched c eid b a = record c {
  cache_files = insert eid (record { file_ext = b; dirty = false }) c.cache_files;
  cache_attrs = insert eid a c.cache_attrs;
  server = record c.server {
    file_attrs =
        insert eid (record (Extent.attr c.server eid) { atime = c.now }) c.server.file_attrs;
  };
  net = rest (rest c.net);
}

-- What an operation leaves of what is seen, and that it keeps `IsValid`.
pub record Keeps (c d : Client) : Type 0 where
  pub same : (id : ℕ) → content d id ≡ content c id
  pub valid : IsValid d

timed-IsConsistent :
    (c : Client) (eid : ℕ) (b : Bytes)
    → lookup eid c.server.files ≡ some b
    → IsConsistent c.server
    → IsConsistent (record c.server {
      file_attrs =
          insert eid (record (Extent.attr c.server eid) { atime = c.now }) c.server.file_attrs;
    })
unfolding Extent.get_found
timed-IsConsistent c eid b e h = get_found-IsConsistent c.server eid c.now (some b) e h

fetched-Keeps :
    (c : Client) (eid : ℕ) (b : Bytes) (a : Attr)
    → IsValid c
    → lookup eid c.cache_files ≡ none
    → lookup eid c.server.files ≡ some b
    → Keeps c (fetched c eid b a)
unfolding seen coherent
fetched-Keeps c eid b a v m e = record {
  same = λ id. ground (
    arith,
    nat_Eq.beq_iff eid id,
    lookup-insert {K = ℕ} eid id (record { file_ext = b; dirty = false }) c.cache_files,
  );
  valid = record {
    net = ground (arith, all_answer-rest c.net v.net, all_answer-rest (rest c.net));
    clean = λ id. ground (
      arith,
      v.clean id,
      nat_Eq.beq_iff eid id,
      bytes_Eq.beq_iff b b,
      lookup-insert {K = ℕ} eid id (record { file_ext = b; dirty = false }) c.cache_files,
    );
    known = λ id h. ground (
      arith,
      v.known id,
      lookup-insert {K = ℕ} eid id (record { file_ext = b; dirty = false }) c.cache_files,
      lookup-insert {K = ℕ} eid id a c.cache_attrs,
    );
    server = timed-IsConsistent c eid b e v.server;
  };
}

get_missed_lem :
    (c : Client) (eid : ℕ) (buf b : Bytes)
    → IsValid c
    → lookup eid c.server.files ≡ some b
    → (a : Attr) × (get_missed c eid buf ≡ (fetched c eid b a, answered Status.ok, b))
unfolding get_missed
get_missed_lem c eid buf b v e =
    let sv = record c.server {
      file_attrs =
          insert eid (record (Extent.attr c.server eid) { atime = c.now }) c.server.file_attrs;
    } in
    let c1 = record c { server = sv; net = rest c.net } in
    let (a, (g, z)) =
      getattr-file sv eid b (lookup eid sv.file_attrs) e refl
        (timed-IsConsistent c eid b e v.server eid) in
    (
      a,
      simp
          (
            call_get_lem c eid v.net b e,
            (all_answer-rest (rest c.net) (all_answer-rest c.net v.net).1).0,
            g,
          )
          refl,
    )

seen_server :
    (e : Option CacheFileEnt) (o : Option Bytes) (b : Bytes)
    → e ≡ none
    → seen e o ≡ some b
    → o ≡ some b
unfolding seen
seen_server none o b m h = h
seen_server (some e) o b m h = cc

get_found_lem :
    (c : Client) (eid : ℕ) (buf b : Bytes) (o : Option CacheFileEnt)
    → lookup eid c.cache_files ≡ o
    → IsValid c
    → content c eid ≡ some b
    → (is_ok (get_found c eid buf o).1 ≡ true)
      × ((get_found c eid buf o).2 ≡ b)
      × Keeps c (get_found c eid buf o).0
unfolding get_found seen
get_found_lem c eid buf b none m v h =
    let e = seen_server (lookup eid c.cache_files) (lookup eid c.server.files) b m h in
    let (a, g) = get_missed_lem c eid buf b v e in
    subst (λ r. (is_ok r.1 ≡ true) × (r.2 ≡ b) × Keeps c r.0) (sym g)
      (refl, refl, fetched-Keeps c eid b a v m e)
get_found_lem c eid buf b (some f) m v h = (
  refl,
  ground arith,
  record {
    same = λ id. refl;
    valid = record {
      net = v.net;
      clean = v.clean;
      known = λ id k. ground (
        arith,
        v.known id,
        lookup-insert {K = ℕ} eid id (record (cached_attr c eid) { atime = c.now }) c.cache_attrs,
      );
      server = v.server;
    };
  },
)

-- A `get` of a file that is seen returns it with OK, and changes nothing that is seen.
pub get_lem :
    (c : Client) (eid : ℕ) (buf b : Bytes)
    → IsValid c
    → content c eid ≡ some b
    → (is_ok (get c eid buf).1 ≡ true) × ((get c eid buf).2 ≡ b) × Keeps c (get c eid buf).0
unfolding get
get_lem c eid buf b v h = get_found_lem c eid buf b (lookup eid c.cache_files) refl v h

attr_cached :
    (c : Client) (eid : ℕ) (a : Attr)
    → IsValid c
    → IsValid (record c { cache_attrs = insert eid a c.cache_attrs })
attr_cached c eid a v = record {
  net = v.net;
  clean = v.clean;
  known = λ id k. ground (arith, v.known id, lookup-insert {K = ℕ} eid id a c.cache_attrs);
  server = v.server;
}

asked : (c : Client) → IsValid c → IsValid (record c { net = rest c.net })
asked c v = record {
  net = (all_answer-rest c.net v.net).1;
  clean = v.clean;
  known = v.known;
  server = v.server;
}

not_cached :
    (f : Option CacheFileEnt) (a : Option Attr)
    → a ≡ none
    → (is_some f ≡ true → is_some a ≡ true)
    → f ≡ none
not_cached none a e k = refl
not_cached (some f) a e k = absurd (ground (arith, k))

getattr_found_lem :
    (c : Client) (eid : ℕ) (b : Bytes) (o : Option Attr)
    → lookup eid c.cache_attrs ≡ o
    → IsValid c
    → content c eid ≡ some b
    → (is_ok (getattr_found c eid o).1 ≡ true) × Keeps c (getattr_found c eid o).0
unfolding getattr_found getattr_missed
getattr_found_lem c eid b none m v h =
    let f = not_cached (lookup eid c.cache_files) (lookup eid c.cache_attrs) m (v.known eid) in
    let e = seen_server (lookup eid c.cache_files) (lookup eid c.server.files) b f h in
    let (a, (g, z)) =
      getattr-file c.server eid b (lookup eid c.server.file_attrs) e refl (v.server eid) in
    simp ((all_answer-rest c.net v.net).0, g)
      (
        refl,
        record {
          same = λ id. refl;
          valid = attr_cached (record c { net = rest c.net }) eid a (asked c v);
        },
      )
getattr_found_lem c eid b (some a) m v h = (refl, record { same = λ id. refl; valid = v })

-- A `getattr` of a file that is seen returns OK, and changes nothing that is seen.
pub getattr_lem :
    (c : Client) (eid : ℕ) (b : Bytes)
    → IsValid c
    → content c eid ≡ some b
    → (is_ok (getattr c eid).1 ≡ true) × Keeps c (getattr c eid).0
unfolding getattr
getattr_lem c eid b v h = getattr_found_lem c eid b (lookup eid c.cache_attrs) refl v h

getattr_found-Keeps :
    (c : Client) (eid : ℕ) (o : Option Attr) → IsValid c → Keeps c (getattr_found c eid o).0
unfolding getattr_found getattr_missed
getattr_found-Keeps c eid none v = rw (call_getattr_lem c eid v.net) (record {
  same = λ id. refl;
  valid =
      attr_cached (record c { net = rest c.net }) eid
        (or_else c.junk (Extent.getattr c.server eid).1) (asked c v);
})
getattr_found-Keeps c eid (some a) v = record { same = λ id. refl; valid = v }

-- A `getattr` of any file changes nothing that is seen.
pub getattr-Keeps : (c : Client) (eid : ℕ) → IsValid c → Keeps c (getattr c eid).0
unfolding getattr
getattr-Keeps c eid v = getattr_found-Keeps c eid (lookup eid c.cache_attrs) v

-- The client behind a `put`, with the attributes that it caches.
abbrev pub wrote : Client → ℕ → Bytes → Client
wrote c eid buf = record c {
  cache_files = insert eid (record { file_ext = buf; dirty = true }) c.cache_files;
}

wrote_lem :
    (c : Client) (eid : ℕ) (buf : Bytes) (a : Attr)
    → IsValid c
    → ((id : ℕ)
        → content (record (wrote c eid buf) { cache_attrs = insert eid a c.cache_attrs }) id
          ≡ (if nat_eq eid id then some buf else content c id))
      × IsValid (record (wrote c eid buf) { cache_attrs = insert eid a c.cache_attrs })
unfolding seen coherent
wrote_lem c eid buf a v =
    let e : CacheFileEnt = record { file_ext = buf; dirty = true } in
    (
      λ id. ground (arith, lookup-insert {K = ℕ} eid id e c.cache_files),
      record {
        net = v.net;
        clean = λ id. ground (arith, v.clean id, lookup-insert {K = ℕ} eid id e c.cache_files);
        known = λ id k. ground (
          arith,
          v.known id,
          lookup-insert {K = ℕ} eid id e c.cache_files,
          lookup-insert {K = ℕ} eid id a c.cache_attrs,
        );
        server = v.server;
      },
    )

put_attr_lem :
    (c : Client) (eid : ℕ) (buf : Bytes) (o : Option Attr)
    → IsValid c
    → ((id : ℕ)
        → content (put_attr (wrote c eid buf) eid buf o) id
          ≡ (if nat_eq eid id then some buf else content c id))
      × IsValid (put_attr (wrote c eid buf) eid buf o)
unfolding put_attr
put_attr_lem c eid buf none v =
    let d = wrote c eid buf in
    let (st, a) = Extent.getattr c.server eid in
    let w = wrote_lem c eid buf (new_attr d buf (answered st) a) v in
    simp ((all_answer-rest c.net v.net).0) (w.0, asked _ w.1)
put_attr_lem c eid buf (some a) v = wrote_lem c eid buf _ v

-- A `put` of any file returns OK, and changes what is seen of that file alone.
pub put_lem :
    (c : Client) (eid : ℕ) (buf : Bytes)
    → IsValid c
    → (is_ok (put c eid buf).1 ≡ true)
      × ((id : ℕ)
          → content (put c eid buf).0 id ≡ (if nat_eq eid id then some buf else content c id))
      × IsValid (put c eid buf).0
unfolding put
put_lem c eid buf v =
    let w = put_attr_lem c eid buf (lookup eid c.cache_attrs) v in (refl, w.0, w.1)
