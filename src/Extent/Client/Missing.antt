-- ===== src/Extent/Client/Missing.antt =====
-- A `get` of a file that nobody has put (extent_client.cc).
use ds.Common.{
  ℕ, ◌≡◌, refl, true, false, none, some, Bytes, Option, lookup, nat_Eq, lookup-insert_self,
}
use ds.Extent
use ds.Extent.{Status, Attr}
use ds.Extent.Kept.{agree, IsConsistent}
use ds.Extent.Client.{
  CacheFileEnt, Client, answered, is_ok, rest, call_get, call_getattr, get_missed, get_found, get,
}
use ds.Extent.Client.Content.{all_answer, all_answer-rest}

no_attr_of : (o : Option Bytes) (a : Option Attr) → o ≡ none → agree o a ≡ true → a ≡ none
unfolding agree
no_attr_of none none e h = refl
no_attr_of none (some a) e h = cc
no_attr_of (some b) a e h = cc

missed_twice :
    (c : Client) (eid : ℕ) (buf : Bytes)
    → all_answer c.net ≡ true
    → lookup eid c.server.files ≡ none
    → lookup eid c.server.file_attrs ≡ none
    → (is_ok (get_missed c eid buf).1 ≡ false)
      × (lookup eid (get_missed c eid buf).0.cache_files
          ≡ some (record { file_ext = buf; dirty = false }))
unfolding get_missed call_get call_getattr Extent.get Extent.get_found Extent.getattr
    Extent.getattr_found
missed_twice c eid buf n f a =
    let k = all_answer-rest c.net n in
    simp (f, a, k.0, (all_answer-rest (rest c.net) k.1).0)
      (
        refl,
        lookup-insert_self {K = ℕ} eid (record { file_ext = buf; dirty = false }) c.cache_files,
      )

cached_get :
    (c : Client) (eid : ℕ) (buf : Bytes) (e : CacheFileEnt)
    → lookup eid c.cache_files ≡ some e
    → ((get c eid buf).1 ≡ answered Status.ok) × ((get c eid buf).2 ≡ e.file_ext)
unfolding get get_found
cached_get c eid buf e m = simp m (refl, refl)

-- A `get` of a file that neither the cache nor the server has returns no OK, and leaves the caller's
-- string in the cache as if it were the file: the next `get` returns it with OK.
pub get_missing :
    (c : Client) (eid : ℕ) (buf buf' : Bytes)
    → all_answer c.net ≡ true
    → IsConsistent c.server
    → lookup eid c.cache_files ≡ none
    → lookup eid c.server.files ≡ none
    → let d = (get c eid buf).0 in
      (is_ok (get c eid buf).1 ≡ false)
      × ((get d eid buf').1 ≡ answered Status.ok)
      × ((get d eid buf').2 ≡ buf)
unfolding get get_found
get_missing c eid buf buf' n v m f =
    let a = no_attr_of (lookup eid c.server.files) (lookup eid c.server.file_attrs) f (v eid) in
    let k = missed_twice c eid buf n f a in
    let g = cached_get (get_missed c eid buf).0 eid buf' _ k.1 in simp m (k.0, g.0, g.1)
