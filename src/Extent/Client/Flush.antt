-- ===== src/Extent/Client/Flush.antt =====
-- What a flush of the extent client writes to the server, and histories of operations
-- (extent_client.cc).
use ds.Common.{
  ℕ, ◌≡◌, refl, ◌∙◌, true, false, List, [], ◌∷◌, Option, none, some, Bytes, lookup, subst, nat_Eq,
  nat_eq, bytes_Eq, if◌then◌else◌, arith, lookup-insert, lookup-erase, Bool-cases, is_some, inl,
  inr,
}
use ds.Extent
use ds.Extent.{Status}
use ds.Extent.Kept.{put-IsConsistent, put-file, remove_found_lem}
use ds.Extent.Client.{
  CacheFileEnt, Client, rest, call_put, call_remove, get, getattr, put, dropped, flush_found, flush,
}
use ds.Extent.Client.Content.{
  seen, content, coherent, IsValid, Keeps, all_answer-rest, get_lem, getattr_lem, put_lem,
}

put_elsewhere :
    (c : Client) (eid id : ℕ) (buf : Bytes)
    → lookup id (Extent.put c.server eid buf c.now).0.files
      ≡ (if nat_eq eid id then some buf else lookup id c.server.files)
unfolding Extent.put
put_elsewhere c eid id buf = lookup-insert {K = ℕ} eid id buf c.server.files

flush_dirty :
    (c : Client) (eid : ℕ) (e : CacheFileEnt)
    → lookup eid c.cache_files ≡ some e
    → IsValid c
    → Keeps c (record (dropped c eid) {
      server = (Extent.put c.server eid e.file_ext c.now).0;
      net = rest c.net;
    })
unfolding seen coherent
flush_dirty c eid e m v = record {
  same = λ id. ground (
    arith,
    nat_Eq.beq_iff eid id,
    put_elsewhere c eid id e.file_ext,
    lookup-erase {K = ℕ} eid id c.cache_files,
  );
  valid = record {
    net = (all_answer-rest c.net v.net).1;
    clean = λ id. ground (
      arith,
      v.clean id,
      nat_Eq.beq_iff eid id,
      put_elsewhere c eid id e.file_ext,
      lookup-erase {K = ℕ} eid id c.cache_files,
    );
    known = λ id k. ground (
      arith,
      v.known id,
      lookup-erase {K = ℕ} eid id c.cache_files,
      lookup-erase {K = ℕ} eid id c.cache_attrs,
    );
    server = put-IsConsistent c.server eid e.file_ext c.now v.server;
  };
}

clean_file :
    (e : CacheFileEnt) (o : Option Bytes)
    → e.dirty ≡ false
    → coherent (some e) o ≡ true
    → o ≡ some e.file_ext
unfolding coherent
clean_file e none d h = cc
clean_file e (some b) d h = ground (arith, bytes_Eq.beq_iff e.file_ext b)

flush_clean :
    (c : Client) (eid : ℕ) (e : CacheFileEnt)
    → lookup eid c.cache_files ≡ some e
    → e.dirty ≡ false
    → IsValid c
    → Keeps c (dropped c eid) × (lookup eid c.server.files ≡ some e.file_ext)
unfolding seen coherent
flush_clean c eid e m d v =
    let f =
      clean_file e (lookup eid c.server.files) d
        (subst (λ o. coherent o (lookup eid c.server.files) ≡ true) m (v.clean eid)) in
    (
      record {
        same =
            λ id. ground (arith, nat_Eq.beq_iff eid id, lookup-erase {K = ℕ} eid id c.cache_files);
        valid = record {
          net = v.net;
          clean = λ id. ground (arith, v.clean id, lookup-erase {K = ℕ} eid id c.cache_files);
          known = λ id k. ground (
            arith,
            v.known id,
            lookup-erase {K = ℕ} eid id c.cache_files,
            lookup-erase {K = ℕ} eid id c.cache_attrs,
          );
          server = v.server;
        };
      },
      f,
    )

-- A flush of a cached file changes nothing that is seen, and the server has the file afterwards.
pub flush_lem :
    (c : Client) (eid : ℕ) (e : CacheFileEnt)
    → IsValid c
    → lookup eid c.cache_files ≡ some e
    → Keeps c (flush c eid) × (lookup eid (flush c eid).server.files ≡ some e.file_ext)
unfolding flush flush_found call_put
flush_lem c eid e v m = elim (Bool-cases e.dirty) [
  | inl d ↦
      simp (m, d, (all_answer-rest c.net v.net).0)
        (flush_dirty c eid e m v, put-file c.server eid e.file_ext c.now)
  | inr d ↦ simp (m, d) (flush_clean c eid e m d v)
]

-- A flush of a file of which neither the content nor the attributes are cached removes it from the
-- server.
pub flush_uncached :
    (c : Client) (eid : ℕ)
    → IsValid c
    → lookup eid c.cache_files ≡ none
    → lookup eid c.cache_attrs ≡ none
    → lookup eid (flush c eid).server.files ≡ none
unfolding flush flush_found call_remove Extent.remove
flush_uncached c eid v f a =
    simp (f, a, (all_answer-rest c.net v.net).0)
      (remove_found_lem c.server eid (lookup eid c.server.files) (lookup eid c.server.file_attrs)
        refl refl (v.server eid)).1

-- The operations of a user that holds the locks.
pub data Op : Type 0 where
  gets : ℕ → Op
  gets_attr : ℕ → Op
  puts : ℕ → Bytes → Op
  flushes : ℕ → Op

unfoldable pub step : Client → Op → Client
step c (gets eid) = (get c eid []).0
step c (gets_attr eid) = (getattr c eid).0
step c (puts eid buf) = (put c eid buf).0
step c (flushes eid) = flush c eid

unfoldable pub steps : Client → List Op → Client
steps c [] = c
steps c (o ∷ os) = steps (step c o) os

-- A read is of a file that is seen, and a flush of one that is cached.
abbrev pub IsAllowed : Client → Op → Type 0
IsAllowed c (gets eid) = is_some (content c eid) ≡ true
IsAllowed c (gets_attr eid) = is_some (content c eid) ≡ true
IsAllowed c (puts eid buf) = Unit {0}
IsAllowed c (flushes eid) = is_some (lookup eid c.cache_files) ≡ true

abbrev pub AllAllowed : Client → List Op → Type 0
AllAllowed c [] = Unit {0}
AllAllowed c (o ∷ os) = IsAllowed c o × AllAllowed (step c o) os

-- The specification: one map of files, which only `put` changes.
unfoldable pub spec : (ℕ → Option Bytes) → List Op → ℕ → Option Bytes
spec f [] id = f id
spec f (gets eid ∷ os) id = spec f os id
spec f (gets_attr eid ∷ os) id = spec f os id
spec f (puts eid buf ∷ os) id = spec (λ j. if nat_eq eid j then some buf else f j) os id
spec f (flushes eid ∷ os) id = spec f os id

some_of {ℓ} : {A : Type ℓ} (o : Option A) → is_some o ≡ true → (a : A) × (o ≡ some a)
some_of none h = absurd (cc)
some_of (some a) h = (a, refl)

spec-cong :
    (os : List Op) (f g : ℕ → Option Bytes)
    → ((j : ℕ) → f j ≡ g j)
    → (id : ℕ) → spec f os id ≡ spec g os id
unfolding spec
spec-cong [] f g h id = h id
spec-cong (gets eid ∷ os) f g h id = spec-cong os f g h id
spec-cong (gets_attr eid ∷ os) f g h id = spec-cong os f g h id
spec-cong (puts eid buf ∷ os) f g h id = spec-cong os _ _ (λ j. ground (arith, h j)) id
spec-cong (flushes eid ∷ os) f g h id = spec-cong os f g h id

-- Whatever a user reads, writes and flushes under the locks, with all calls answered: the client and
-- the server together are one map of files, which a `put` alone changes. Reads are of files that are
-- seen, flushes of cached ones.
pub steps-content :
    (os : List Op) (c : Client) (id : ℕ)
    → IsValid c
    → AllAllowed c os
    → content (steps c os) id ≡ spec (content c) os id
unfolding steps spec step
steps-content [] c id v a = refl
steps-content (gets eid ∷ os) c id v a =
    let (b, e) = some_of (content c eid) a.0 in
    let k = (get_lem c eid [] b v e).2 in
    steps-content os _ id k.valid a.1 ∙ spec-cong os _ _ k.same id
steps-content (gets_attr eid ∷ os) c id v a =
    let (b, e) = some_of (content c eid) a.0 in
    let k = (getattr_lem c eid b v e).1 in
    steps-content os _ id k.valid a.1 ∙ spec-cong os _ _ k.same id
steps-content (puts eid buf ∷ os) c id v a =
    let k = put_lem c eid buf v in steps-content os _ id k.2 a.1 ∙ spec-cong os _ _ k.1 id
steps-content (flushes eid ∷ os) c id v a =
    let (e, m) = some_of (lookup eid c.cache_files) a.0 in
    let k = (flush_lem c eid e v m).0 in
    steps-content os _ id k.valid a.1 ∙ spec-cong os _ _ k.same id
