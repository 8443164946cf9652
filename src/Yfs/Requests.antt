-- ===== src/Yfs/Requests.antt =====
-- The names of a directory as the requests of fuse.cc make, find and remove them: the handlers against
-- a map from names to numbers.
use ds.Common.{
  ℕ, ◌<◌, ◌^◌, ◌≡◌, ◌≢◌, refl, ap, sym, ◌∙◌, Bool, true, false, List, [], ◌∷◌, ◌++◌, Option, none,
  some, Bytes, Map, nat_Eq, bytes_Eq, ◌==◌, if◌then◌else◌, arith, subst, lookup, erase, All,
  Bool-cases, inl, inr,
}
use ds.Extent.Client.Content.{Keeps, getattr-Keeps}
use ds.Extent.Client as Cache
use ds.Yfs.Client
use ds.Yfs.Client.{YfsClient, XxStatus, xx_ok, isfile, isdir, release_lock}
use ds.Yfs.Directory.{IsEntry, IsName}
use ds.Yfs.Files.{IsSound}
use ds.Yfs.Names.{IsDirectory, lookup_lem, add_dirent-Adds, unlink-Drops}
use ds.Yfs.Fuse.{
  getattr, enter, file_number, created, looked, unlinked, fuseserver_createhelper, fuseserver_mknod,
  fuseserver_lookup, fuseserver_unlink, Reply, reply_entry, reply_err, Errno, no_error, enoent,
  eexist, enosys, Stat,
}
use ds.Yfs.Balance.{isfile-file_number, ne_file}

-- A request for a name in a directory: `mknod` with the number that `random` gives, `lookup`, `unlink`.
pub data NameRequest : Type 0 where
  makes : Bytes → ℕ → NameRequest
  looks unlinks : Bytes → NameRequest

unfoldable pub serve_name : YfsClient → ℕ → NameRequest → YfsClient × Reply
serve_name y d (makes name rand) = fuseserver_mknod y d name rand
serve_name y d (looks name) = fuseserver_lookup y d name
serve_name y d (unlinks name) = fuseserver_unlink y d name

-- What a reply says of a name.
pub data Answer : Type 0 where
  number : ℕ → Answer
  errno : Errno → Answer
  nothing : Answer

abbrev pub answer : Reply → Answer
answer (reply_entry ino st) = number ino
answer (reply_err e) = errno e
answer _ = nothing

abbrev pub spec_make : Map Bytes ℕ → Bytes → ℕ → Option ℕ → Map Bytes ℕ × Answer
spec_make m name ino none = (m ++ ((name, ino) ∷ []), number ino)
spec_make m name ino (some i) = (m, errno eexist)

abbrev pub spec_unlink : Map Bytes ℕ → Bytes → Option ℕ → Map Bytes ℕ × Answer
spec_unlink m name none = (m, errno enoent)
spec_unlink m name (some i) = if isfile i then (erase name m, errno no_error) else (m, errno enosys)

abbrev pub spec_look : Option ℕ → Answer
spec_look none = errno enoent
spec_look (some i) = number i

-- The same requests on a map from names to numbers.
unfoldable pub spec_name : Map Bytes ℕ → NameRequest → Map Bytes ℕ × Answer
spec_name m (makes name rand) = spec_make m name (file_number rand) (lookup name m)
spec_name m (looks name) = (m, spec_look (lookup name m))
spec_name m (unlinks name) = spec_unlink m name (lookup name m)

-- A user sees the map in the directory.
pub record Shows (y : YfsClient) (d : ℕ) (m : Map Bytes ℕ) : Type 0 where
  pub sound : IsSound y
  pub directory : IsDirectory y d m

Keeps-Shows :
    (y z : YfsClient) (d : ℕ) (m : Map Bytes ℕ) → Shows y d m → Keeps y.ec z.ec → Shows z d m
Keeps-Shows y z d m s k = record {
  sound = k.valid;
  directory = record { spelled = k.same d ∙ s.directory.spelled; names = s.directory.names };
}

getattr_lem : (y : YfsClient) (i : ℕ) → IsSound y → Keeps y.ec (getattr y i).0.ec
unfolding getattr Client.getfile Client.getdir
getattr_lem y i v =
    let k = getattr-Keeps y.ec i v in
    elim (Bool-cases (isfile i)) [
      | inl f ↦ elim (Bool-cases (Cache.is_ok (Cache.getattr y.ec i).1)) [
        | inl g ↦ simp (f, g) k
        | inr g ↦ simp (f, g) k
      ]
      | inr f ↦ elim (Bool-cases (Cache.is_ok (Cache.getattr y.ec i).1)) [
        | inl g ↦ simp (f, g) k
        | inr g ↦ simp (f, g) k
      ]
    ]

All-append :
    (m : Map Bytes ℕ) (e : Bytes × ℕ) → All IsEntry m → IsEntry e → All IsEntry (m ++ (e ∷ []))
All-append [] e h k = (k, h)
All-append (n ∷ m) e h k = (h.0, All-append m e h.1 k)

All-erase : (name : Bytes) (m : Map Bytes ℕ) → All IsEntry m → All IsEntry (erase name m)
unfolding erase
All-erase name [] h = h
All-erase name ((n, i) ∷ m) h = elim (Bool-cases (n == name)) [
  | inl k ↦ simp k (All-erase name m h.1)
  | inr k ↦ simp k (h.0, All-erase name m h.1)
]

enter_lem :
    (y : YfsClient) (d : ℕ) (name : Bytes) (i : ℕ) (m : Map Bytes ℕ)
    → Shows y d m
    → IsEntry (name, i)
    → d ≢ i
    → ((enter y d name i).1 ≡ xx_ok) × Shows (enter y d name i).0 d (m ++ ((name, i) ∷ []))
unfolding enter
enter_lem y d name i m s e ne =
    let (ok, a) = add_dirent-Adds y d i name m s.sound s.directory.spelled ne in
    let k = getattr_lem (Client.add_dirent y d i name).0 i a.sound in
    simp ok (
      refl,
      record {
        sound = k.valid;
        directory = record {
          spelled = k.same d ∙ a.directory;
          names = All-append m (name, i) s.directory.names e;
        };
      },
    )

released-Shows :
    (z : YfsClient) (d i : ℕ) (m : Map Bytes ℕ) → Shows z d m → Shows (release_lock z i) d m
released-Shows z d i m t = record {
  sound = t.sound;
  directory = record { spelled = t.directory.spelled; names = t.directory.names };
}

-- The state and the answer of a handler are those of the map.
abbrev pub Refines : ℕ → YfsClient × Reply → Map Bytes ℕ × Answer → Type 0
Refines d r t = Shows r.0 d t.0 × (answer r.1 ≡ t.1)

created_ok :
    (d : ℕ) (m : Map Bytes ℕ) (ino : ℕ) (r : YfsClient × XxStatus × Stat)
    → r.1 ≡ xx_ok
    → Shows r.0 d m
    → Refines d (created reply_entry ino r) (m, number ino)
created_ok d m ino (z, a, st) h t =
    subst (λ b. Refines d (created reply_entry ino (z, b, st)) (m, number ino)) (sym h) (t, refl)

file_number-lt : (r : ℕ) → file_number r < 2 ^ 64
file_number-lt r = ground arith

module _ (y : YfsClient) (d : ℕ) (name : Bytes) (m : Map Bytes ℕ) (s : Shows y d m) where
  found_lem :
      (single : Bool)
      → ((Client.lookup y name d single).1 ≡ xx_ok)
        × ((Client.lookup y name d single).2 ≡ lookup name m)
        × Shows (Client.lookup y name d single).0 d m
  found_lem single =
      let (ok, f, k) = lookup_lem y name d single m s.sound s.directory in
      (ok, f, Keeps-Shows y (Client.lookup y name d single).0 d m s k)

  made_lem :
      (rand : ℕ) (o : Option ℕ)
      → lookup name m ≡ o
      → IsName name
      → isdir d ≡ true
      → Refines d (fuseserver_mknod y d name rand) (spec_make m name (file_number rand) o)
  unfolding fuseserver_mknod fuseserver_createhelper
  made_lem rand none e n k =
      let (ok, f, t) = found_lem false in
      let entry : IsEntry (name, file_number rand) = record {
        name = n;
        inum = file_number-lt rand;
      } in
      let (made, u) =
        enter_lem (Client.lookup y name d false).0 d name (file_number rand) m t entry
          (ne_file d (file_number rand) k (isfile-file_number rand)) in
      simp (ok, f ∙ e)
        (created_ok d (m ++ ((name, file_number rand) ∷ [])) (file_number rand)
          (enter (Client.lookup y name d false).0 d name (file_number rand)) made u)
  made_lem rand (some i) e n k =
      let (ok, f, t) = found_lem false in
      simp (ok, f ∙ e) (released-Shows (Client.lookup y name d false).0 d d m t, refl)

  looked_lem :
      (z : YfsClient) (o : Option ℕ) → Shows z d m → Refines d (looked z o) (m, spec_look o)
  looked_lem z none t = (t, refl)
  looked_lem z (some i) t = (Keeps-Shows z (getattr z i).0 d m t (getattr_lem z i t.sound), refl)

  lookup_request_lem : Refines d (fuseserver_lookup y d name) (m, spec_look (lookup name m))
  unfolding fuseserver_lookup
  lookup_request_lem =
      let (ok, f, t) = found_lem true in
      simp ok (
        subst
          (λ o. Refines d (looked (Client.lookup y name d true).0 o) (m, spec_look (lookup name m)))
          (sym f) (looked_lem (Client.lookup y name d true).0 (lookup name m) t))

  unlinked_lem :
      (z : YfsClient) (o : Option ℕ)
      → isdir d ≡ true
      → Shows z d m
      → Refines d (unlinked z d name o) (spec_unlink m name o)
  unlinked_lem z none k t = (released-Shows z d d m t, refl)
  unlinked_lem z (some i) k t = elim (Bool-cases (isfile i)) [
    | inl f ↦
        let (ok, r) = unlink-Drops z d i name m t.sound t.directory (ne_file d i k f) in
        simp (f, ok)
          (
            record {
              sound = r.sound;
              directory = record {
                spelled = r.directory;
                names = All-erase name m t.directory.names;
              };
            },
            refl,
          )
    | inr f ↦ simp f (released-Shows z d d m t, refl)
  ]

  unlink_request_lem :
      isdir d ≡ true → Refines d (fuseserver_unlink y d name) (spec_unlink m name (lookup name m))
  unfolding fuseserver_unlink
  unlink_request_lem k =
      let (ok, f, t) = found_lem false in
      simp ok (
        subst
          (λ o.
            Refines d (unlinked (Client.lookup y name d false).0 d name o)
              (spec_unlink m name (lookup name m)))
          (sym f) (unlinked_lem (Client.lookup y name d false).0 (lookup name m) k t))

-- The name that a request is for.
abbrev pub name_of : NameRequest → Bytes
name_of (makes name rand) = name
name_of (looks name) = name
name_of (unlinks name) = name

serve_name_lem :
    (y : YfsClient) (d : ℕ) (q : NameRequest) (m : Map Bytes ℕ)
    → Shows y d m
    → isdir d ≡ true
    → IsName (name_of q)
    → Refines d (serve_name y d q) (spec_name m q)
unfolding serve_name spec_name
serve_name_lem y d (makes name rand) m s k n = made_lem y d name m s rand (lookup name m) refl n k
serve_name_lem y d (looks name) m s k n = lookup_request_lem y d name m s
serve_name_lem y d (unlinks name) m s k n = unlink_request_lem y d name m s k

-- The answers to a sequence of requests.
unfoldable pub serve_names : YfsClient → ℕ → List NameRequest → List Answer
serve_names y d [] = []
serve_names y d (q ∷ qs) = let (z, r) = serve_name y d q in answer r ∷ serve_names z d qs

unfoldable pub spec_names : Map Bytes ℕ → List NameRequest → List Answer
spec_names m [] = []
spec_names m (q ∷ qs) = let (n, a) = spec_name m q in a ∷ spec_names n qs

-- Any sequence of `mknod`, `lookup` and `unlink` requests in a directory is answered as a map from
-- names to numbers answers it: a name is made once, found while it is there, and gone when it is
-- unlinked. The names have no colon and no bar, the directory is one by its number and spells a map at
-- the start, and all calls of the server are answered.
pub serve_names_lem :
    (qs : List NameRequest) (y : YfsClient) (d : ℕ) (m : Map Bytes ℕ)
    → Shows y d m
    → isdir d ≡ true
    → All (λ q. IsName (name_of q)) qs
    → serve_names y d qs ≡ spec_names m qs
unfolding serve_names spec_names
serve_names_lem [] y d m s k n = refl
serve_names_lem (q ∷ qs) y d m s k n =
    let (t, a) = serve_name_lem y d q m s k n.0 in
    let rest = serve_names_lem qs (serve_name y d q).0 d (spec_name m q).0 t k n.1 in
    rw a (ap (◌∷◌ (spec_name m q).1) rest)
