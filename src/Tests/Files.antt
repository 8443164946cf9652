-- ===== src/Tests/Files.antt =====
-- Runs of the file system client over the extent client and its server.
use ds.Common.{
  nat_Eq, ◌≡◌, refl, true, List, [], ◌∷◌, none, some, Bytes, arith, lookup, insert, is_some,
}
use ds.Extent
use ds.Extent.{no_attr}
use ds.Extent.Kept.{server-IsConsistent}
use ds.Extent.Client as Cache
use ds.Extent.Client.Content.{content, seen, coherent, all_answer, IsValid}
use ds.Extent.Client.Flush.{Op, puts, flushes, steps, step, spec, steps-content}
use ds.Extent.Client.Removal.{flush_removed}
use ds.Yfs.Client.{YfsClient, xx_ok, read_file, write_file}
use ds.Yfs.Split.{is_in, ended}
use ds.Yfs.Directory.{IsName, dir_text}
use ds.Yfs.Files.{file, read_file-write_file}
use ds.Yfs.Locks.{held, IsBalanced}
use ds.Yfs.Fuse.{handle, mkdir_request}
use ds.Yfs.Balance.{handle-IsBalanced}
use ds.Yfs.Requests.{
  NameRequest, makes, looks, unlinks, Shows, serve_names, spec_names, serve_names_lem,
}

-- A client that has cached nothing, in front of a new server, whose root directory is empty.
abbrev cache : Cache.Client
cache = record {
  cache_files = [];
  cache_attrs = [];
  server = Extent.server 5;
  net = [];
  now = 9;
  junk = no_attr;
}

cache-IsValid : IsValid cache
unfolding all_answer coherent lookup
cache-IsValid = record {
  net = refl;
  clean = λ id. refl;
  known = λ id h. absurd (cc);
  server = server-IsConsistent 5;
}

abbrev yfs : YfsClient
yfs = record { ec = cache; locks = []; unread = 0 }

root : file yfs 1 ≡ some []
unfolding seen Extent.server lookup
root = refl

yfs-IsBalanced : IsBalanced yfs
unfolding held
yfs-IsBalanced = refl

abbrev a : Bytes
a = 97 ∷ []

a-IsName : IsName a
unfolding is_in
a-IsName = record { ne_nil = λ e. cc; no_bar = refl; no_colon = refl }

root-Shows : Shows yfs 1 []
unfolding dir_text ended
root-Shows = record { sound = cache-IsValid; directory = record { spelled = root; names = tt } }

-- A file is made, found, unlinked, and not found any more.
abbrev requests : List NameRequest
requests = makes a 7 ∷ looks a ∷ unlinks a ∷ looks a ∷ []

serve_names_lem_example : serve_names yfs 1 requests ≡ spec_names [] requests
serve_names_lem_example =
    serve_names_lem requests yfs 1 [] root-Shows refl
      (a-IsName, (a-IsName, (a-IsName, (a-IsName, tt))))

handle-IsBalanced_example : IsBalanced (handle (λ name ino. name) yfs (mkdir_request 1 a 7)).0
handle-IsBalanced_example =
    handle-IsBalanced (λ name ino. name) yfs (mkdir_request 1 a 7) (λ e. omega arith) yfs-IsBalanced

-- A write of two bytes behind the end of an empty file.
abbrev written : YfsClient
written = (write_file yfs 1 3 2 (8 ∷ 9 ∷ [])).0

read_file-write_file_example :
    ((write_file yfs 1 3 2 (8 ∷ 9 ∷ [])).1 ≡ xx_ok)
    × ((read_file written 1 3 2 []).1 ≡ xx_ok)
    × ((read_file written 1 3 2 []).2 ≡ 8 ∷ 9 ∷ [])
read_file-write_file_example =
    read_file-write_file yfs 1 3 (8 ∷ 9 ∷ []) [] [] cache-IsValid root (omega arith)

abbrev operations : List Op
operations = puts 1 a ∷ flushes 1 ∷ []

cached_root : is_some (lookup 1 (step cache (puts 1 a)).cache_files) ≡ true
unfolding step Cache.put Cache.put_attr Cache.call_getattr lookup insert
cached_root = refl

steps-content_example : content (steps cache operations) 1 ≡ spec (content cache) operations 1
steps-content_example = steps-content operations cache 1 cache-IsValid (tt, (cached_root, tt))

flush_removed_example :
    (content (Cache.flush (Cache.remove cache 1).0 1) 1 ≡ none)
    × (lookup 1 (Cache.flush (Cache.remove cache 1).0 1).server.files ≡ none)
flush_removed_example = flush_removed cache 1 cache-IsValid
