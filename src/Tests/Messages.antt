-- ===== src/Tests/Messages.antt =====
-- Runs of the marshalling and of the reply window.
use ds.Common.{
  ℕ, ◌+◌, ◌≤◌, ◌<◌, ◌≡◌, refl, true, false, List, [], ◌∷◌, none, some, Bytes, arith, lookup, insert,
  Map, bytes_eq, bytes_Eq,
}
use ds.Rpc.Marshall.{
  Memory, Marshall, marshall, Unmarshall, unmarshall, slice, rawbytes, rpc_header_sz, put_u32,
  put_string, put_rawbytes, put_rawbyte,
}
use ds.Rpc.Marshall.Capacity.{Write, Grows, write_all, size_all, marshall-Grows, rawbytes_overflow}
use ds.Rpc.Marshall.Codec.{Codec}
use ds.Rpc.Marshall.Basic.{u32_codec, string_codec}
use ds.Rpc.Marshall.Compound.{put_pair, pair_codec, put_map, put_all, put_vector}
use ds.Rpc.Marshall.Entries.{Distinct}
use ds.Rpc.Marshall.Wire.{WireType, KeyType, put_value, get_value, get_value-put_value}
use ds.Rpc.Marshall.Header.{
  ReqHeader, FitsReq, pack_req_header, unpack_req_header, unpack-pack_req_header,
}
use ds.Rpc.Marshall.Bounds.{rawbytes_overread}
use ds.Rpc.Window.{
  Window, ReplyT, RpcState, Call, empty, enter_client, checkduplicate_and_update, add_reply,
  executions, step, find_reply, trim, check, set_reply, is_forgotten, reply_t,
}
use ds.Rpc.Window.AtMostOnce.{executions-le-one}
use ds.Rpc.Window.Replies.{steps, is_freed, reply_replayed, duplicate_in_progress, done_freed}

abbrev zeros : Memory
zeros = λ j. 0

abbrev both : Codec (ℕ × Bytes)
both = pair_codec u32_codec string_codec

abbrev sent : Marshall
sent = both.put (marshall zeros) (7, 65 ∷ 66 ∷ [])

sent-ind : sent.ind ≡ 34
unfolding marshall put_u32 put_string put_rawbyte put_rawbytes put_pair
sent-ind = refl

-- An int, and a map from strings to vectors of ints.
abbrev sent_type : WireType
sent_type =
    WireType.pair WireType.int (WireType.map KeyType.string_key (WireType.vector WireType.int))

abbrev entries : Map Bytes (List ℕ)
entries = (97 ∷ [], 1 ∷ 515 ∷ []) ∷ (98 ∷ [], []) ∷ []

abbrev sent_map : Marshall
sent_map = put_value sent_type (marshall zeros) (7, entries)

sent_map-ind : sent_map.ind ≡ 58
unfolding put_value marshall put_u32 put_string put_rawbyte put_rawbytes put_pair put_map put_all
    put_vector
sent_map-ind = refl

entries-Distinct : Distinct entries
unfolding lookup bytes_eq
entries-Distinct = (refl, (refl, tt))

get_value-put_value_example :
    get_value sent_type (record (unmarshall sent_map.buf 60) { ind = 24 })
    ≡ ((7, entries), record (unmarshall sent_map.buf 60) { ind = sent_map.ind })
get_value-put_value_example =
    get_value-put_value sent_type zeros (7, entries) sent_map.buf 60
      (
        omega arith,
        (
          omega arith,
          (
            (omega arith, (omega arith, (omega arith, (omega arith, tt)))),
            ((omega arith, (omega arith, tt)), tt),
          ),
          entries-Distinct,
        ),
      )
      (λ j h. refl) (omega (arith, sent_map-ind)) (omega arith)

abbrev header : ReqHeader
header = record { xid = 1; proc = 28673; clt_nonce = 5; srv_nonce = 6; xid_rep = 0 }

header-FitsReq : FitsReq header
header-FitsReq = record {
  xid = omega arith;
  proc = omega arith;
  clt_nonce = omega arith;
  srv_nonce = omega arith;
  xid_rep = omega arith;
}

unpack-pack_req_header_example :
    let m' = pack_req_header sent header in
    (m'.ind ≡ sent.ind)
    × (m'.buf 28 ≡ sent.buf 28)
    × (unpack_req_header (unmarshall m'.buf m'.ind)
        ≡ (header, record (unmarshall m'.buf m'.ind) { ind = rpc_header_sz }))
unpack-pack_req_header_example =
    unpack-pack_req_header sent header 28 header-FitsReq (omega (arith, sent-ind))
      (omega (arith, sent-ind)) (omega arith)

abbrev writes : List Write
writes = Write.byte 1 ∷ Write.block (2 ∷ 3 ∷ []) ∷ []

marshall-Grows_example :
    Grows (marshall zeros) (write_all (marshall zeros) writes) (size_all writes)
    × (24 + size_all writes ≤ (write_all (marshall zeros) writes).capa)
marshall-Grows_example = marshall-Grows zeros writes (omega arith)

-- A buffer that is full up to its last byte but one, of 2^31 - 1 bytes, and a block of two bytes.
abbrev nearly_full : Marshall
nearly_full = record { buf = zeros; capa = 2147483647; ind = 2147483646 }

rawbytes_overflow_example :
    ((put_rawbytes nearly_full (2 ∷ 3 ∷ [])).capa ≡ 2147483647)
    × ((put_rawbytes nearly_full (2 ∷ 3 ∷ [])).capa < (put_rawbytes nearly_full (2 ∷ 3 ∷ [])).ind)
rawbytes_overflow_example =
    rawbytes_overflow nearly_full (2 ∷ 3 ∷ [])
      (record { inside = omega arith; nonempty = omega arith; positive = omega arith })
      (omega arith) (omega arith)

-- 30 bytes, of which 28 are read.
abbrev received : Unmarshall
received = record { buf = zeros; sz = 30; ind = 28; ok = true }

rawbytes_overread_example :
    (30 < 28 + 4294967290)
    × ((rawbytes received [] 4294967290).1.ok ≡ true)
    × ((rawbytes received [] 4294967290).0 ≡ slice zeros 28 4294967290)
    × ((rawbytes received [] 4294967290).1.ind < 28)
rawbytes_overread_example =
    rawbytes_overread received [] 4294967290 refl (omega arith) (omega arith) (omega arith)
      (omega arith)

window : Unit {0}
unfolding empty enter_client checkduplicate_and_update add_reply executions step find_reply trim
    check set_reply is_forgotten reply_t lookup insert
window = tt

abbrev start : Window
start = enter_client empty 5

-- Two requests, each of them sent twice, and the second one acknowledges the first.
abbrev history : List Call
history =
    Call.enters 5
    ∷ Call.checks 5 1 0
    ∷ Call.checks 5 1 0
    ∷ Call.replies 5 1 9 4
    ∷ Call.checks 5 2 1
    ∷ Call.checks 5 2 1
    ∷ Call.checks 5 1 0
    ∷ []

executions-le-one_example : executions 5 1 empty history ≤ 1
executions-le-one_example = executions-le-one 5 1 history

reply_replayed_example :
    let t =
      steps
        (add_reply
          (steps (checkduplicate_and_update start 5 1 0).0 (Call.checks 5 2 0 ∷ []))
          5
          1
          9
          4)
        (Call.checks 5 3 0 ∷ []) in
    ((checkduplicate_and_update t 5 1 0).1 ≡ RpcState.done)
    × ((checkduplicate_and_update t 5 1 0).2
        ≡ some (record { xid = 1; cb_present = false; buf = some 9; sz = 4 }))
reply_replayed_example =
    reply_replayed start 5 1 0 0 9 4 (Call.checks 5 2 0 ∷ []) (Call.checks 5 3 0 ∷ [])
      (unfold window in refl) (omega arith) (λ e. omega arith, tt) (λ e. omega arith, tt)

duplicate_in_progress_example :
    let t = steps (checkduplicate_and_update start 5 1 0).0 (Call.checks 5 2 0 ∷ []) in
    ((checkduplicate_and_update t 5 1 0).1 ≡ RpcState.done)
    × ((checkduplicate_and_update t 5 1 0).2
        ≡ some (record { xid = 1; cb_present = false; buf = none; sz = 0 }))
duplicate_in_progress_example =
    duplicate_in_progress start 5 1 0 0 (Call.checks 5 2 0 ∷ []) (unfold window in refl)
      (omega arith) (λ e. omega arith, tt)

abbrev answered : Window
answered = add_reply (checkduplicate_and_update start 5 1 0).0 5 1 9 4

abbrev answer : ReplyT
answer = record { xid = 1; cb_present = false; buf = some 9; sz = 4 }

done_freed_example :
    ((checkduplicate_and_update answered 5 1 1).1 ≡ RpcState.done)
    × ((checkduplicate_and_update answered 5 1 1).2 ≡ some answer)
    × (is_freed 9 (checkduplicate_and_update answered 5 1 1).0.freed ≡ true)
done_freed_example = done_freed answered 5 1 1 9 answer (unfold window in refl) refl (omega arith)
