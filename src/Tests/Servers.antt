-- ===== src/Tests/Servers.antt =====
-- Runs of the lock server and of the extent server.
use ds.Common
use ds.Common.{
  nat_Eq, ℕ, ◌+◌, ◌%◌, ◌^◌, ◌≡◌, refl, Bool, true, false, List, [], ◌∷◌, ◌++◌, Option, none, some,
  Bytes, All, arith, length, lookup, insert, is_some, if◌then◌else◌,
}
use ds.Lock.Service.{LockCall, grants, freed, calls, one_if}
use ds.Lock.Cached
use ds.Lock.Cached.{
  Answer, info, acquire, acquire_found, acquire_known, acquire_free, acquire_locked, create_lock,
  update_lock_state, release, server,
}
use ds.Lock.Cached.Exclusion.{Request, held, cached, cached-grants}
use ds.Lock.Cached.Told.{info_told}
use ds.Lock.Cached.Waiting.{serve_all, tried_since, serve_all-told}
use ds.Lock.Cached.Order.{IsNext, acquire-IsNext}
use ds.Extent
use ds.Extent.{Status, Attr, get, getattr, put, remove}
use ds.Extent.Kept.{put_kept, remove_lem}

abbrev fine : Answer
fine = record { bound = true; ret = 0 }

abbrev a : Bytes
a = 65 ∷ []

abbrev b : Bytes
b = 66 ∷ []

-- Client a takes lock 7, client b waits for it, a gives it back, and b takes it.
abbrev history : List (LockCall Request)
history =
    LockCall.acquire 7 (a, fine)
    ∷ LockCall.acquire 7 (b, fine)
    ∷ LockCall.release 7 (a, fine)
    ∷ LockCall.acquire 7 (b, fine)
    ∷ []

cached-grants_example :
    grants cached 7 (server 0) history
    ≡ freed cached 7 (server 0) history + one_if (held (calls cached (server 0) history) 7)
cached-grants_example = cached-grants 0 7 history

serve_all-told_example :
    info_told 7 (info (serve_all (server 0) history) 7) (tried_since 7 (server 0) [] history) ≡ true
serve_all-told_example = serve_all-told 0 7 history

-- Client a holds lock 7 of the first server, and nobody that of the second, for which b waits.
abbrev taken : Cached.Server
taken = (acquire (server 0) 7 a fine).0

abbrev waited : Cached.Server
waited = (release (acquire taken 7 b fine).0 7 a fine).0

locking : Unit {0}
unfolding server acquire acquire_found acquire_known acquire_free acquire_locked create_lock
    update_lock_state release lookup insert Common.bytes_eq Cached.revoke_lock Cached.retry_waiting
    Cached.retry_cli Cached.revoke_waited
locking = tt

acquire-IsNext_example : IsNext b (info waited 7).wait_list
acquire-IsNext_example = acquire-IsNext waited 7 b fine (unfold locking in refl)

abbrev before : List Extent.Request
before = Extent.Request.put_req 2 (1 ∷ []) 10 ∷ []

abbrev ours : Bytes
ours = 8 ∷ 9 ∷ []

abbrev after : List Extent.Request
after = Extent.Request.get_req 2 12 ∷ Extent.Request.remove_req 3 ∷ []

put_kept_example :
    let s = Extent.serve_all (put (Extent.serve_all (Extent.server 9) before) 2 ours 11).0 after in
    ((get s 2 13).1 ≡ Status.ok)
    × ((get s 2 13).2 ≡ some ours)
    × ((t : Attr) × ((getattr s 2 ≡ (Status.ok, some t)) × (t.size ≡ length ours % 2 ^ 32)))
put_kept_example = put_kept 9 before after 2 ours 11 13 (refl, (refl, tt))

remove_lem_example :
    let s = Extent.serve_all (Extent.server 9) before in
    ((remove s 2).1 ≡ (if is_some (lookup 2 s.files) then Status.ok else Status.noent))
    × (lookup 2 (remove s 2).0.files ≡ none)
    × (lookup 2 (remove s 2).0.file_attrs ≡ none)
remove_lem_example = remove_lem 9 before 2
