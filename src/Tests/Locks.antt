-- ===== src/Tests/Locks.antt =====
-- Runs of the lock client over the lock server without a cache.
use ds.Common.{nat_Eq, ℕ, ◌+◌, ◌≡◌, ◌≢◌, refl, true, false, List, [], ◌∷◌, lookup, insert}
use ds.Lock.Plain
use ds.Lock.Plain.{LockServer, lock_server, asks, LockStatus}
use ds.Lock.Plain.Granting.{plain}
use ds.Lock.Plain.Waiting.{Event, waits, count, step, steps, start, release_wakes}
use ds.Lock.Client
use ds.Lock.Client.{
  LockClient, lock_client_cache, Pc, holding, calling, Response, info, locked, acquiring,
  giving_back,
}
use ds.Lock.Client.Threads.{Step, Reaches, holding_alone}
use ds.Lock.Client.System.{
  System, Move, Runs, AcquireCall, becomes, asked, works, all_work, mutual_exclusion,
}

-- Thread 4 acquires the lock and gets it at once.
abbrev calls_server : LockClient
calls_server = Client.acquire lock_client_cache 4

called : calls_server.threads 4 ≡ calling
unfolding Client.acquire Client.acquire_entry
called = refl

abbrev is_given : LockClient
is_given = Client.called calls_server 4 Response.ok

given : is_given.threads 4 ≡ Pc.granted
unfolding Client.called
given = refl

abbrev holds : LockClient
holds = Client.settle is_given 4

held : holds.threads 4 ≡ holding
unfolding Client.settle
held = refl

holds-Reaches : Reaches holds
holds-Reaches =
    Reaches.goes_on is_given holds
      (Reaches.goes_on calls_server is_given
        (Reaches.goes_on lock_client_cache calls_server Reaches.starts
          (Step.acquires lock_client_cache 4 refl))
        (Step.is_granted calls_server 4 called))
      (Step.settles is_given 4 given)

holding_alone_example :
    (holds.threads 5 ≡ holding → ◌≡◌ {A = ℕ} 4 5) × (holds.threads 5 ≢ giving_back)
holding_alone_example = holding_alone holds 4 5 holds-Reaches held

-- Client 1 has lock 7, and a thread of client 2 waits for it.
abbrev waiting_7 : List Event
waiting_7 = Event.asks 7 1 ∷ Event.asks 7 2 ∷ []

waits_7 : waits 7 2 (steps start waiting_7).waiting ≡ true
unfolding steps step waits Plain.acquire Plain.acquire_found lookup insert
waits_7 = refl

release_wakes_example :
    let w = steps start waiting_7 in
    let t = step (step w (Event.releases 7)) (Event.goes_on 7 2) in
    ((Plain.release w.server 7).1 ≡ true)
    × ((Plain.wake (step w (Event.releases 7)).server 7 2).1 ≡ true)
    × (count 7 t.waiting + 1 ≡ count 7 w.waiting)
release_wakes_example = release_wakes waiting_7 7 2 waits_7

-- Client 1 gets lock 7 of the server for its thread 4.
abbrev all_start : System plain 7 asks
all_start = record { server = lock_server; clients = λ k. lock_client_cache }

abbrev all_call : System plain 7 asks
all_call = becomes plain 7 asks all_start 1 lock_server calls_server

abbrev all_given : System plain 7 asks
all_given = becomes plain 7 asks all_call 1 (asked plain 7 asks all_call 1).0 is_given

granted_1 : (asked plain 7 asks all_call 1).1 ≡ true
unfolding Plain.acquire Plain.acquire_found lookup plain Plain.request
granted_1 = refl

abbrev all_hold : System plain 7 asks
all_hold = becomes plain 7 asks all_given 1 all_given.server (Client.settle (all_given.clients 1) 4)

first_called : (all_call.clients 1).threads 4 ≡ calling
unfolding Client.acquire Client.acquire_entry
first_called = refl

first_given : (all_given.clients 1).threads 4 ≡ Pc.granted
unfolding Client.called Plain.request Plain.acquire Plain.acquire_found lookup plain
first_given = refl

first_holds : (all_hold.clients 1).threads 4 ≡ holding
unfolding Client.settle
first_holds = refl

abbrev all_hold-Runs : Runs plain 7 asks lock_server all_hold
all_hold-Runs =
    Runs.moves all_given all_hold
      (Runs.moves all_call all_given
        (Runs.moves all_start all_call Runs.begins
          (Move.acts all_start 1 calls_server (Step.acquires lock_client_cache 4 refl) refl))
        (Move.calls all_call 1 4 (asked plain 7 asks all_call 1).0 Response.ok first_called
          (AcquireCall.grants granted_1)))
      (Move.acts all_given 1 (Client.settle (all_given.clients 1) 4)
        (Step.settles (all_given.clients 1) 4 first_given) refl)

all_hold-works : all_work plain 7 asks all_hold-Runs ≡ true
unfolding all_work works
all_hold-works = refl

mutual_exclusion_example :
    (◌≡◌ {A = ℕ} 1 1) × (◌≡◌ {A = ℕ} 4 4) × ((plain).locked all_hold.server 7 ≡ true)
mutual_exclusion_example =
    mutual_exclusion plain 7 asks lock_server all_hold 1 1 4 4 all_hold-Runs all_hold-works
      first_holds first_holds

-- Client 2 asks for the same lock with its thread 5, is told to try again, and does so.
abbrev two_calls : System plain 7 asks
two_calls = becomes plain 7 asks all_hold 2 all_hold.server (Client.acquire lock_client_cache 5)

abbrev two_off : System plain 7 asks
two_off =
    becomes plain 7 asks two_calls 2 (asked plain 7 asks two_calls 2).0
      (Client.called (Client.acquire lock_client_cache 5) 5 Response.retry)

abbrev two_ready : System plain 7 asks
two_ready = becomes plain 7 asks two_off 2 two_off.server (Client.retry_handler (two_off.clients 2))

abbrev two_again : System plain 7 asks
two_again =
    becomes plain 7 asks two_ready 2 two_ready.server (Client.check_retry (two_ready.clients 2) 5)

two_called : (two_calls.clients 2).threads 5 ≡ calling
unfolding Client.acquire Client.acquire_entry
two_called = refl

two_refused : (asked plain 7 asks two_calls 2).1 ≡ false
unfolding Plain.acquire Plain.acquire_found lookup insert plain Plain.request
two_refused = refl

retry-ne-ok : Response.retry ≢ Response.ok
retry-ne-ok e = cc

two_put_off : (two_ready.clients 2).threads 5 ≡ Pc.retrying
unfolding Client.retry_handler Client.called
two_put_off = refl

abbrev two_again-Runs : Runs plain 7 asks lock_server two_again
two_again-Runs =
    Runs.moves two_ready two_again
      (Runs.moves two_off two_ready
        (Runs.moves two_calls two_off
          (Runs.moves all_hold two_calls all_hold-Runs (
            Move.acts all_hold 2 (Client.acquire lock_client_cache 5)
              (Step.acquires lock_client_cache 5 refl) refl))
          (Move.calls two_calls 2 5 (asked plain 7 asks two_calls 2).0 Response.retry two_called
            (AcquireCall.refuses Response.retry two_refused retry-ne-ok)))
        (Move.acts two_off 2 (Client.retry_handler (two_off.clients 2))
          (Step.is_ready (two_off.clients 2)) refl))
      (Move.acts two_ready 2 (Client.check_retry (two_ready.clients 2) 5)
        (Step.checks_retry (two_ready.clients 2) 5 two_put_off) refl)

abbrev two_in : System plain 7 asks
two_in =
    becomes plain 7 asks two_again 2 (asked plain 7 asks two_again 2).0
      (Client.recalled (two_again.clients 2) 5 Response.retry)
