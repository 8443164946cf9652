-- ===== src/Paxos/Log.antt =====
-- The durable log of an acceptor (log.cc): the three kinds of records that are appended, and the
-- reader that a restart runs.
pub mod Replay
pub mod Progress
use ds.Common.{
  ℕ, zero, suc, ◌+◌, Bool, List, [], ◌∷◌, ◌++◌, Option, none, some, Bytes, codes, insert, nat_Eq,
  bytes_Eq, ◌==◌, if◌then◌else◌, print_nat, read_nat, read_word, getline, get, space, newline,
  length, ◌>>=◌,
}
use ds.Paxos.Proposal.{Prop}
use ds.Paxos.State.{Acceptor, u32}

-- The records of the log.
pub data Entry : Type 0 where
  done : ℕ → Bytes → Entry
  propseen : Prop → Entry
  accepted : Prop → Bytes → Entry

-- The text that the three functions below write for a record.
unfoldable pub print_entry : Entry → Bytes
print_entry (done i v) = codes "done" ++ (space ∷ (print_nat i ++ (space ∷ (v ++ newline ∷ []))))
print_entry (propseen p) =
    codes "propseen" ++ (space ∷ (print_nat p.n ++ (space ∷ (p.m ++ newline ∷ []))))
print_entry (accepted p v) =
    codes "accepted"
    ++ (space ∷ (print_nat p.n ++ (space ∷ (p.m ++ (space ∷ (v ++ newline ∷ []))))))

-- `log::loginstance`
unfoldable pub loginstance : ℕ → Bytes → Acceptor → Acceptor
loginstance i v a = record a { file = a.file ++ print_entry (done i v) }

-- `log::logprop`
unfoldable pub logprop : Prop → Acceptor → Acceptor
logprop p a = record a { file = a.file ++ print_entry (propseen p) }

-- `log::logaccept`
unfoldable pub logaccept : Prop → Bytes → Acceptor → Acceptor
logaccept p v a = record a { file = a.file ++ print_entry (accepted p v) }

-- The branches of the loop of `log::logread`; `none` where a field cannot be read.
unfoldable pub read_done : Acceptor → Bytes → Option (Acceptor × Bytes)
read_done a s = do
  (i, s1) ← read_nat u32 s
  let (v, s2) = getline (get s1)
  some (
    record a {
      values = insert i v a.values;
      instance_h = i;
      v_a = [];
      n_h = record { n = 0; m = a.n_h.m };
      n_a = record { n = 0; m = a.n_a.m };
    },
    s2,
  )

unfoldable pub read_propseen : Acceptor → Bytes → Option (Acceptor × Bytes)
read_propseen a s = do
  (n, s1) ← read_nat u32 s
  (m, s2) ← read_word s1
  some (record a { n_h = record { n = n; m = m } }, s2)

unfoldable pub read_accepted : Acceptor → Bytes → Option (Acceptor × Bytes)
read_accepted a s = do
  (n, s1) ← read_nat u32 s
  (m, s2) ← read_word s1
  let (v, s3) = getline (get s2)
  some (record a { n_a = record { n = n; m = m }; v_a = v }, s3)

-- How a read of the log ends. `malformed`: a field could not be read (what is stored then depends on
-- the version of the stream library); `abort`: an unknown record, `VERIFY(0)`; `stuck`: no fuel.
pub data Read : Type 0 where
  ok : Acceptor → Read
  malformed abort stuck : Read

unfoldable pub read_record : Bytes → Acceptor → Bytes → Option (Option (Acceptor × Bytes))
read_record type a s =
    if type == codes "done"
    then some (read_done a s)
    else if type == codes "propseen"
    then some (read_propseen a s)
    else if type == codes "accepted"
    then some (read_accepted a s)
    else none

-- The loop of `log::logread` over what is left of the file.
unfoldable pub logread_loop : ℕ → Acceptor → Bytes → Read
logread_loop zero a s = Read.stuck
logread_loop (suc f) a s = elim (read_word s) [
  | none ↦ Read.ok a
  | some (type, s1) ↦ elim (read_record type a s1) [
    | none ↦ Read.abort
    | some none ↦ Read.malformed
    | some (some (a', s2)) ↦ logread_loop f a' s2
  ]
]

-- `log::logread`
unfoldable pub logread : Acceptor → Read
unfolding logread_loop read_record read_done read_propseen read_accepted
logread a = logread_loop (suc (length a.file)) a a.file

-- The loop of `log::dump`.
unfoldable pub dump_lines : ℕ → Bytes → Bytes
dump_lines zero s = []
dump_lines (suc f) [] = []
dump_lines (suc f) (c ∷ s) = let (v, rest) = getline (c ∷ s) in v ++ newline ∷ dump_lines f rest

-- `log::dump`: the lines of the file, each with a line feed.
unfoldable pub dump : Acceptor → Bytes
unfolding dump_lines
dump a = dump_lines (length a.file) a.file

-- `log::restore` and `acceptor::restore`
unfoldable pub restore : Bytes → Acceptor → Read
restore s a = logread (record a { file = s })
