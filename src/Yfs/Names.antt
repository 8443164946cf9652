-- ===== src/Yfs/Names.antt =====
-- What the operations on directories do to the names that a user sees (yfs_client.cc over
-- extent_client.cc).
use ds.Common.{
  ℕ, ◌+◌, ◌<◌, ◌^◌, ◌≡◌, ◌≢◌, refl, ap, sym, ◌∙◌, Bool, true, false, List, [], ◌∷◌, ◌++◌, Option,
  none, some, Bytes, Map, nat_eq, nat_Eq, bytes_Eq, if◌then◌else◌, arith, subst, is_some, erase,
  All, or_else, lookup-erase,
}
use ds.Common
use ds.Extent.Client
use ds.Extent.Client.Content.{Keeps, get_lem, put_lem}
use ds.Extent.Client.{is_ok}
use ds.Extent.Client.Removal.{remove-Forgets}
use ds.Yfs.Client.{YfsClient, xx_ok, lookup, add_dirent, unlink, read_dir, put_both, put_remove}
use ds.Yfs.Directory.{
  dir_text, IsEntry, find_lem, keep_lem, dirents_lem, appended_lem, appended, find, keep, entries,
  dirents,
}
use ds.Yfs.Files.{file, IsSound}

-- The directory is there, and spells a map from names to numbers.
pub record IsDirectory (y : YfsClient) (d : ℕ) (m : Map Bytes ℕ) : Type 0 where
  pub spelled : file y d ≡ some (dir_text m)
  pub names : All IsEntry m

-- `lookup` finds what the map of the directory gives, and changes nothing that a user sees.
pub lookup_lem :
    (y : YfsClient) (name : Bytes) (d : ℕ) (single : Bool) (m : Map Bytes ℕ)
    → IsSound y
    → IsDirectory y d m
    → ((lookup y name d single).1 ≡ xx_ok)
      × ((lookup y name d single).2 ≡ Common.lookup name m)
      × Keeps y.ec (lookup y name d single).0.ec
unfolding lookup
lookup_lem y name d true m v h =
    let (g, b, k) = get_lem y.ec d [] (dir_text m) v h.spelled in
    let found = ap (λ t. find y.unread name (entries t)) b ∙ find_lem y.unread name m h.names in
    simp g (refl, found, k)
lookup_lem y name d false m v h =
    let (g, b, k) = get_lem y.ec d [] (dir_text m) v h.spelled in
    let found = ap (λ t. find y.unread name (entries t)) b ∙ find_lem y.unread name m h.names in
    simp g (refl, found, k)

-- `readDir` lists the map of the directory, and changes nothing that a user sees.
pub read_dir_lem :
    (y : YfsClient) (d : ℕ) (m : Map Bytes ℕ)
    → IsSound y
    → IsDirectory y d m
    → ((read_dir y d).1 ≡ xx_ok) × ((read_dir y d).2 ≡ m) × Keeps y.ec (read_dir y d).0.ec
unfolding read_dir
read_dir_lem y d m v h =
    let (g, b, k) = get_lem y.ec d [] (dir_text m) v h.spelled in
    simp g (refl, ap (λ t. dirents y.unread (entries t)) b ∙ dirents_lem y.unread m h.names, k)

-- The files after an entry for a new file is added.
pub record Adds (y z : YfsClient) (d i : ℕ) (name : Bytes) (m : Map Bytes ℕ) : Type 0 where
  pub directory : file z d ≡ some (dir_text (m ++ ((name, i) ∷ [])))
  pub created : file z i ≡ some []
  pub others : (id : ℕ) → id ≢ d → id ≢ i → file z id ≡ file y id
  pub sound : IsSound z

-- `addDirent` appends the entry to the directory and makes the file empty.
pub add_dirent-Adds :
    (y : YfsClient) (d i : ℕ) (name : Bytes) (m : Map Bytes ℕ)
    → IsSound y
    → file y d ≡ some (dir_text m)
    → d ≢ i
    → ((add_dirent y d i name).1 ≡ xx_ok) × Adds y (add_dirent y d i name).0 d i name m
unfolding add_dirent put_both
add_dirent-Adds y d i name m v h ne =
    let (g, b, k) = get_lem y.ec d [] (dir_text m) v h in
    let c = (Client.get y.ec d []).0 in
    let new = appended (Client.get y.ec d []).2 name i in
    let p = put_lem c d new k.valid in
    let q = put_lem (Client.put c d new).0 i [] p.2 in
    let spelled = ap (λ t. appended t name i) b ∙ appended_lem m name i in
    simp (g, p.0, q.0)
      (
        refl,
        record {
          directory = q.1 d ∙ ground (arith, p.1 d, spelled);
          created = q.1 i ∙ ground arith;
          others = λ id n j. q.1 id ∙ ground (arith, p.1 id, k.same id);
          sound = q.2;
        },
      )

-- The files after the entries with a name are removed.
pub record Drops (y z : YfsClient) (d i : ℕ) (name : Bytes) (m : Map Bytes ℕ) : Type 0 where
  pub directory : file z d ≡ some (dir_text (erase name m))
  pub others : (id : ℕ) → id ≢ d → id ≢ i → file z id ≡ file y id
  pub uncached : Common.lookup i z.ec.cache_files ≡ none
  pub forgotten : Common.lookup i z.ec.cache_attrs ≡ none
  pub sound : IsSound z

remove-is_ok : (c : Client.Client) (i : ℕ) → is_ok (Client.remove c i).1 ≡ true
unfolding Client.remove
remove-is_ok c i = refl

-- `unlink` removes the entries with the name from the directory. The file leaves the cache; the server
-- hears of it when the lock of the file goes back.
pub unlink-Drops :
    (y : YfsClient) (d i : ℕ) (name : Bytes) (m : Map Bytes ℕ)
    → IsSound y
    → IsDirectory y d m
    → d ≢ i
    → ((unlink y d i name).1 ≡ xx_ok) × Drops y (unlink y d i name).0 d i name m
unfolding unlink put_remove
unlink-Drops y d i name m v h ne =
    let (g, b, k) = get_lem y.ec d [] (dir_text m) v h.spelled in
    let c = (Client.get y.ec d []).0 in
    let new = keep name (entries (Client.get y.ec d []).2) in
    let p = put_lem c d new k.valid in
    let r = remove-Forgets (Client.put c d new).0 i p.2 in
    let spelled = ap (λ t. keep name (entries t)) b ∙ keep_lem name m h.names in
    simp (g, p.0, remove-is_ok (Client.put c d new).0 i)
      (
        refl,
        record {
          directory = r.others d ne ∙ p.1 d ∙ ground (arith, spelled);
          others = λ id n j. r.others id j ∙ ground (arith, p.1 id, k.same id);
          uncached = r.no_file;
          forgotten = r.no_attr;
          sound = r.valid;
        },
      )
