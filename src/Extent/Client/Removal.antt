-- ===== src/Extent/Client/Removal.antt =====
-- A file that is removed (`extent_client::remove`), and the flush that tells the server.
use ds.Common.{ℕ, ◌≡◌, ◌≢◌, refl, none, lookup, nat_Eq, arith, lookup-erase}
use ds.Extent.Client.{Client, remove, flush, flush_found, call_remove}
use ds.Extent.Client.Content.{content, seen, coherent, IsValid}
use ds.Extent.Client.Flush.{flush_uncached}

-- The client after a removal: the file is out of the cache, and the others are as they were.
pub record Forgets (c d : Client) (eid : ℕ) : Type 0 where
  pub no_file : lookup eid d.cache_files ≡ none
  pub no_attr : lookup eid d.cache_attrs ≡ none
  pub others : (id : ℕ) → id ≢ eid → content d id ≡ content c id
  pub valid : IsValid d

pub remove-Forgets : (c : Client) (eid : ℕ) → IsValid c → Forgets c (remove c eid).0 eid
unfolding remove seen coherent
remove-Forgets c eid v = record {
  no_file = ground (arith, lookup-erase {K = ℕ} eid eid c.cache_files);
  no_attr = ground (arith, lookup-erase {K = ℕ} eid eid c.cache_attrs);
  others = λ id n. ground (arith, lookup-erase {K = ℕ} eid id c.cache_files, nat_Eq.beq_iff eid id);
  valid = record {
    net = v.net;
    clean = λ id. ground (arith, v.clean id, lookup-erase {K = ℕ} eid id c.cache_files);
    known = λ id k. ground (
      arith,
      v.known id,
      lookup-erase {K = ℕ} eid id c.cache_files,
      lookup-erase {K = ℕ} eid id c.cache_attrs,
    );
    server = v.server;
  };
}

flush_uncached-cache_files :
    (c : Client) (eid : ℕ)
    → lookup eid c.cache_files ≡ none
    → lookup eid c.cache_attrs ≡ none
    → lookup eid (flush c eid).cache_files ≡ none
unfolding flush flush_found call_remove
flush_uncached-cache_files c eid f a = simp (f, a) (ground (arith, f))

-- Once a removed file is flushed, it is neither in the cache nor at the server. All calls are
-- answered, and the cache agrees with the server.
pub flush_removed :
    (c : Client) (eid : ℕ)
    → IsValid c
    → (content (flush (remove c eid).0 eid) eid ≡ none)
      × (lookup eid (flush (remove c eid).0 eid).server.files ≡ none)
unfolding seen
flush_removed c eid v =
    let r = remove-Forgets c eid v in
    let gone = flush_uncached (remove c eid).0 eid r.valid r.no_file r.no_attr in
    let f = flush_uncached-cache_files (remove c eid).0 eid r.no_file r.no_attr in
    (simp (f, gone) refl, gone)
