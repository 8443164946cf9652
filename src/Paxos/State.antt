-- ===== src/Paxos/State.antt =====
-- The state of an acceptor (`class acceptor` of paxos.h) and of its log file (`class log`).
use ds.Common.{ℕ, ◌^◌, Bool, List, Bytes, Map, value_or, nat_Eq, []}
use ds.Paxos.Proposal.{Prop}

-- The number of values of an `unsigned`.
abbrev pub u32 : ℕ
u32 = 2 ^ 32

-- `file` is the text of paxos-<me>.log. `cfg` says whether an object to inform of commits is set,
-- and `upcalls` lists the calls of its `paxos_commit`, the latest first.
pub record Acceptor : Type 0 where
  pub cfg : Bool
  pub me : Bytes
  pub n_h : Prop
  pub n_a : Prop
  pub v_a : Bytes
  pub instance_h : ℕ
  pub values : Map ℕ Bytes
  pub file : Bytes
  pub upcalls : List (ℕ × Bytes)

-- `acceptor::value` as a value.
abbrev pub value : Acceptor → ℕ → Bytes
value a i = value_or [] i a.values

-- The fields as the constructor sets them before it reads the log.
unfoldable pub blank : Bool → Bytes → Bytes → Acceptor
blank cfg me file = record {
  cfg = cfg;
  me = me;
  n_h = record { n = 0; m = me };
  n_a = record { n = 0; m = me };
  v_a = [];
  instance_h = 0;
  values = [];
  file = file;
  upcalls = [];
}
