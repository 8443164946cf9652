-- ===== src/Paxos/Acceptor/Same.antt =====
-- When two states of an acceptor are equal for the protocol, and when its log holds its state.
use ds.Common.{
  ℕ, ◌≡◌, ◌⊎◌, inl, inr, refl, Bool, List, [], ◌∷◌, arith, Bytes, nat_Eq, bytes_Eq, value_or-insert,
  All, ◌∙◌,
}
use ds.Paxos.Proposal.{Prop}
use ds.Paxos.State.{Acceptor, value, blank}
use ds.Paxos.Log.{Entry, done, propseen, accepted}
use ds.Paxos.Log.Replay.{IsLine, IsEntry, apply_entry, replay, print_log}

-- Equal proposal numbers; the address is not compared under the number 0, which no proposer uses.
abbrev pub SameProp : Prop → Prop → Type 0
SameProp p q = (p.n ≡ q.n) × ((p.n ≡ 0) ⊎ (p ≡ q))

-- The state that the protocol reads.
pub record Same (a b : Acceptor) : Type 0 where
  pub n_h : SameProp a.n_h b.n_h
  pub n_a : SameProp a.n_a b.n_a
  pub v_a : a.v_a ≡ b.v_a
  pub instance_h : a.instance_h ≡ b.instance_h
  pub values : (i : ℕ) → value a i ≡ value b i

pub Same-apply : (a b : Acceptor) (e : Entry) → Same a b → Same (apply_entry a e) (apply_entry b e)
Same-apply a b (done i v) h = record {
  n_h = (refl, inl refl);
  n_a = (refl, inl refl);
  v_a = refl;
  instance_h = refl;
  values = λ j. ground (
    arith,
    value_or-insert {K = ℕ} [] i j v a.values,
    value_or-insert {K = ℕ} [] i j v b.values,
    h.values j,
  );
}
Same-apply a b (propseen p) h = record {
  n_h = (refl, inr refl);
  n_a = h.n_a;
  v_a = h.v_a;
  instance_h = h.instance_h;
  values = h.values;
}
Same-apply a b (accepted p v) h = record {
  n_h = h.n_h;
  n_a = (refl, inr refl);
  v_a = refl;
  instance_h = h.instance_h;
  values = h.values;
}

pub Same-replay : (a b : Acceptor) (es : List Entry) → Same a b → Same (replay a es) (replay b es)
Same-replay a b [] h = h
Same-replay a b (e ∷ es) h = Same-replay (apply_entry a e) (apply_entry b e) es (Same-apply a b e h)

SameProp-trans : (p q r : Prop) → SameProp p q → SameProp q r → SameProp p r
SameProp-trans p q r h k = (ground arith, ground arith)

pub Same-trans : (a b c : Acceptor) → Same a b → Same b c → Same a c
Same-trans a b c h k = record {
  n_h = SameProp-trans a.n_h b.n_h c.n_h h.n_h k.n_h;
  n_a = SameProp-trans a.n_a b.n_a c.n_a h.n_a k.n_a;
  v_a = h.v_a ∙ k.v_a;
  instance_h = h.instance_h ∙ k.instance_h;
  values = λ i. h.values i ∙ k.values i;
}

pub Same-refl : (a : Acceptor) → Same a a
Same-refl a = record {
  n_h = (refl, inr refl);
  n_a = (refl, inr refl);
  v_a = refl;
  instance_h = refl;
  values = λ i. refl;
}

-- The file holds records that give the state back, from the state that a constructor starts with.
pub record IsDurable (cfg : Bool) (me : Bytes) (s : Acceptor) : Type 0 where
  pub entries : List Entry
  pub readable : All IsEntry entries
  pub written : s.file ≡ print_log entries
  pub restored : Same (replay (blank cfg me []) entries) s
  pub line : IsLine s.v_a
