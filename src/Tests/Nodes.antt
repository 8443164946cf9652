-- ===== src/Tests/Nodes.antt =====
-- Runs of the acceptor, its log and the proposer.
use ds.Common
use ds.Common.{
  ℕ, ◌<◌, ◌≡◌, ◌≢◌, refl, Bool, true, false, List, [], ◌∷◌, Option, none, some, Bytes, Map, Outcome,
  arith, touch, insert, lookup, erase, print_nat, read_nat, read_word, skip_space, span, getline,
  none_of, IsWord, length, All, ap, ◌++◌,
}
use ds.Paxos.Proposal.{Prop, gt, ge}
use ds.Paxos.Quorum.{isamember, majority, count_members, majority_intersect}
use ds.Paxos.State.{Acceptor, blank}
use ds.Paxos.Log.{
  Read, Entry, logread, read_record, read_done, read_propseen, read_accepted, logread_loop,
  loginstance, logprop, logaccept, print_entry,
}
use ds.Paxos.Log.Replay.{IsLine, IsProposal, replay, print_log, logread-print_log}
use ds.Paxos.Log.Progress.{logread-ne-stuck}
use ds.Paxos.Acceptor.{
  Preparearg, Prepareres, Acceptarg, Request, acceptor, found, found_read, preparereq, acceptreq,
  commit_wo, decidereq, serve, serve_all,
}
use ds.Paxos.Acceptor.Same.{Same}
use ds.Paxos.Acceptor.Durable.{acceptor-logread}
use ds.Paxos.Acceptor.Promises.{Grows, promise_kept, serve_all-Grows}
use ds.Paxos.Messages.{
  put_prop, put_acceptarg, get_acceptarg, put_prepareres, get_acceptarg-put_acceptarg,
}
use ds.Rpc.Marshall.{
  Memory, marshall, unmarshall, put_u32, put_bool, put_string, put_rawbyte, put_rawbytes,
}
use ds.Paxos.Proposer.{
  Proposer, World, Fate, Ran, proposer, handled, sent, call, acc_n_h, setn, acc_commit, gather,
  prepare, accept, decide, run_accept, run_prepared, run,
}
use ds.Paxos.Proposer.Chosen.{IsChosen, IsChosenAs, run-IsChosen}
use ds.Paxos.Proposer.Fresh.{nodes-IsFresh}
use ds.Config.View.{Views, value, paxos_commit, add}
use ds.Config.View.Adding.{add-IsChosen}

abbrev a1 : Bytes
a1 = 65 ∷ 49 ∷ []

abbrev b2 : Bytes
b2 = 66 ∷ []

abbrev c3 : Bytes
c3 = 67 ∷ []

abbrev text : Bytes
text = 65 ∷ 49 ∷ 32 ∷ 66 ∷ []

abbrev prop : ℕ → Bytes → Prop
prop n m = record { n = n; m = m }

-- The state of a first node behind its start.
abbrev started : Acceptor
started = record {
  cfg = true;
  me = a1;
  n_h = prop 0 a1;
  n_a = prop 0 a1;
  v_a = [];
  instance_h = 1;
  values = (1, a1) ∷ [];
  file = print_entry (Entry.done 1 a1);
  upcalls = [];
}

abbrev reply : Prepareres
reply = record { oldinstance = false; accept = false; n_a = prop 0 []; v_a = [] }

abbrev asked : Preparearg
asked = record { instance_ = 2; n = prop 1 a1 }

abbrev proposed : Acceptarg
proposed = record { instance_ = 2; n = prop 1 a1; v = text }

abbrev requests : List Request
requests =
    Request.prepare asked reply
    ∷ Request.accept proposed
    ∷ Request.decide (record { instance_ = 2; v = text })
    ∷ []

abbrev served : Acceptor
served = commit_wo (acceptreq (preparereq started asked reply).0 proposed).0 2 text

program : Unit {0}
unfolding acceptor found found_read blank logread logread_loop read_record read_done read_propseen
    read_accepted print_entry loginstance logprop logaccept preparereq acceptreq commit_wo decidereq
    serve serve_all gt ge print_nat read_nat read_word skip_space span getline insert lookup erase
    Common.bytes_lt Common.bytes_eq
program = tt

a1-IsWord : IsWord a1
unfolding none_of
a1-IsWord = record { ne_nil = λ e. cc; no_space = refl }

asked-IsProposal : IsProposal asked.n
asked-IsProposal = record { fits = omega arith; word = a1-IsWord }

a1-IsLine : IsLine a1
unfolding none_of
a1-IsLine = refl

text-IsLine : IsLine text
unfolding none_of
text-IsLine = refl

acceptor-logread_example :
    (t : Acceptor) × (logread (blank true a1 served.file) ≡ Read.ok t) × Same t served
acceptor-logread_example =
    acceptor-logread true a1 true a1 requests started served a1-IsLine
      (asked-IsProposal, ((asked-IsProposal, text-IsLine), (omega arith, tt)))
      (unfold program in refl) (unfold program in refl)

-- The highest number of a granted request, and one that is refused.
promise_kept_example :
    ((preparereq (acceptreq (preparereq started asked reply).0 proposed).0 asked reply).1.accept
      ≡ false)
    × ((preparereq (acceptreq (preparereq started asked reply).0 proposed).0 asked reply).0.n_h
        ≡ prop 1 a1)
    × ((acceptreq
          (acceptreq (preparereq started asked reply).0 proposed).0
          (record proposed { n = prop 0 a1 })).1
        ≡ false)
    × ((acceptreq
          (acceptreq (preparereq started asked reply).0 proposed).0
          (record proposed { n = prop 0 a1 })).0
        ≡ (acceptreq (preparereq started asked reply).0 proposed).0)
unfolding program
promise_kept_example =
    promise_kept started (acceptreq (preparereq started asked reply).0 proposed).0 asked reply
      (Request.accept proposed ∷ []) refl refl refl asked (record proposed { n = prop 0 a1 }) reply
      refl refl

serve_all-Grows_example : Grows started served
unfolding program
serve_all-Grows_example = serve_all-Grows started served requests refl

first_two : majority (a1 ∷ b2 ∷ c3 ∷ []) (a1 ∷ b2 ∷ []) ≡ true
unfolding majority count_members isamember Common.bytes_eq
first_two = refl

last_two : majority (a1 ∷ b2 ∷ c3 ∷ []) (b2 ∷ c3 ∷ []) ≡ true
unfolding majority count_members isamember Common.bytes_eq
last_two = refl

majority_intersect_example :
    (x : Bytes) × (isamember x (a1 ∷ b2 ∷ c3 ∷ []) ≡ true)
    × (isamember x (a1 ∷ b2 ∷ []) ≡ true)
    × (isamember x (b2 ∷ c3 ∷ []) ≡ true)
majority_intersect_example =
    majority_intersect (a1 ∷ b2 ∷ c3 ∷ []) (a1 ∷ b2 ∷ []) (b2 ∷ c3 ∷ []) first_two last_two

abbrev entries : List Entry
entries = Entry.done 1 a1 ∷ Entry.propseen (prop 1 a1) ∷ Entry.accepted (prop 1 a1) text ∷ []

abbrev stopped : Acceptor
stopped = record (blank true a1 []) { file = print_log entries }

logread-print_log_example : logread stopped ≡ Read.ok (replay stopped entries)
logread-print_log_example =
    logread-print_log stopped entries
      ((omega arith, a1-IsLine), (asked-IsProposal, ((asked-IsProposal, text-IsLine), tt))) refl

-- A file with a broken record.
logread-ne-stuck_example : logread (record (blank true a1 []) { file = text }) ≢ Read.stuck
logread-ne-stuck_example = logread-ne-stuck (record (blank true a1 []) { file = text })

abbrev world : World
world = record {
  nodes = (a1, started) ∷ (b2, record started { me = b2 }) ∷ (c3, record started { me = c3 }) ∷ [];
  fates =
      Fate.answered ∷ Fate.answered ∷ Fate.lost ∷ Fate.answered ∷ Fate.answered ∷ Fate.unanswered
      ∷ Fate.answered ∷ [];
}

abbrev pro : Proposer
pro = proposer a1

network : Unit {0}
unfolding program proposer handled sent call acc_n_h setn acc_commit gather prepare accept decide
    run_accept run_prepared run majority count_members isamember
network = tt

returned : (run pro 2 (a1 ∷ b2 ∷ c3 ∷ []) text world).2 ≡ Ran.returned true
unfolding network
returned = refl

run-IsChosen_example :
    IsChosen 2
      (a1 ∷ b2 ∷ c3 ∷ [])
      (setn pro world).my_n
      (run pro 2 (a1 ∷ b2 ∷ c3 ∷ []) text world).1
run-IsChosen_example =
    run-IsChosen pro 2 (a1 ∷ b2 ∷ c3 ∷ []) text world (omega arith, omega arith) returned

-- The three nodes are the members of view 1, and node 68 joins.
abbrev first_view : Views
first_view = record {
  me = a1;
  vc = true;
  myvid = 1;
  mems = a1 ∷ b2 ∷ c3 ∷ [];
  acc = started;
  deleted = [];
  changes = [];
}

b2-IsWord : IsWord b2
unfolding none_of
b2-IsWord = record { ne_nil = λ e. cc; no_space = refl }

c3-IsWord : IsWord c3
unfolding none_of
c3-IsWord = record { ne_nil = λ e. cc; no_space = refl }

d4-IsWord : IsWord (68 ∷ [])
unfolding none_of
d4-IsWord = record { ne_nil = λ e. cc; no_space = refl }

abbrev new_view : Bytes
new_view = value (first_view.mems ++ ((68 ∷ []) ∷ []))

abbrev adding : Proposer × World × Ran
adding = run pro 2 (a1 ∷ b2 ∷ c3 ∷ []) new_view world

abbrev afterwards : Proposer × World × Ran
afterwards = (adding.0, adding.1, Ran.returned true)

added_true : adding.2 ≡ Ran.returned true
unfolding network value
added_true = refl

added : add first_view pro world (68 ∷ []) 1 ≡ some afterwards
unfolding add
added = ap (λ r. some (adding.0, adding.1, r)) added_true

add-IsChosen_example :
    (v : Bytes) × IsChosenAs 2 (a1 ∷ b2 ∷ c3 ∷ []) (setn pro world).my_n v adding.1
    × ((paxos_commit first_view 2 v).mems ≡ first_view.mems ++ ((68 ∷ []) ∷ []))
    × ((paxos_commit first_view 2 v).deleted ≡ first_view.deleted)
add-IsChosen_example =
    add-IsChosen first_view pro adding.0 world adding.1 (68 ∷ [])
      (a1-IsWord, (b2-IsWord, (c3-IsWord, tt))) d4-IsWord (omega arith)
      (nodes-IsFresh world (refl, (refl, (refl, tt)))) added

abbrev zeros : Memory
zeros = λ j. 0

-- The size of the message, which unfolds the marshalling.
proposed-ind : (put_acceptarg (marshall zeros) proposed).ind ≡ 46
unfolding put_acceptarg put_prop marshall put_u32 put_string put_rawbyte put_rawbytes
proposed-ind = refl

get_acceptarg-put_acceptarg_example :
    let m = put_acceptarg (marshall zeros) proposed in
    get_acceptarg (record (unmarshall m.buf m.ind) { ind = 24 })
    ≡ (proposed, record (unmarshall m.buf m.ind) { ind = m.ind })
get_acceptarg-put_acceptarg_example =
    get_acceptarg-put_acceptarg zeros proposed (omega arith, omega arith, omega arith, omega arith)
      (omega (arith, proposed-ind))

reply-ind : (put_prepareres (marshall zeros) reply).ind ≡ 38
unfolding put_prepareres put_prop marshall put_u32 put_string put_bool put_rawbyte put_rawbytes
reply-ind = refl
