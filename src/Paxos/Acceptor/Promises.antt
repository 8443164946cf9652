-- ===== src/Paxos/Acceptor/Promises.antt =====
-- What the handlers of paxos.cc do to promised numbers and to decided instances.
use ds.Common.{
  ℕ, ◌≤◌, ◌≡◌, refl, true, false, List, [], ◌∷◌, arith, Bytes, Outcome, ok-injective, sym, ◌∙◌,
  Outcome-cases, inl, inr, nat_Eq, value_or-insert, value_or-touch, subst,
}
use ds.Paxos.Proposal.{gt, ge, gt-ge, ge_refl, ge_trans, ge-gt_trans, ge-not-gt}
use ds.Paxos.State.{Acceptor, value}
use ds.Paxos.Acceptor.{
  Request, prepare, accept, decide, commit, serve, serve_all, Preparearg, Prepareres, Acceptarg,
  Decidearg, preparereq, acceptreq, decidereq, commit_wo,
}
use ds.Paxos.Log.{loginstance, logprop, logaccept}

-- How a state may follow another: the instance never falls, the promise never falls within one
-- instance, and an instance that was decided keeps its value.
pub record Grows (s t : Acceptor) : Type 0 where
  pub instance_grows : s.instance_h ≤ t.instance_h
  pub promise_grows : s.instance_h ≡ t.instance_h → ge t.n_h s.n_h ≡ true
  pub values_stay : (i : ℕ) → i ≤ s.instance_h → value t i ≡ value s i

Grows-refl : (s : Acceptor) → Grows s s
Grows-refl s = record {
  instance_grows = omega arith;
  promise_grows = λ e. ge_refl s.n_h;
  values_stay = λ i h. refl;
}

Grows-trans : (s t u : Acceptor) → Grows s t → Grows t u → Grows s u
Grows-trans s t u h k = record {
  instance_grows = omega arith;
  promise_grows = λ e.
      ge_trans u.n_h t.n_h s.n_h (k.promise_grows (omega arith)) (h.promise_grows (omega arith));
  values_stay = λ i le. ground (arith, k.values_stay i, h.values_stay i);
}

preparereq-Grows : (s : Acceptor) (a : Preparearg) (r : Prepareres) → Grows s (preparereq s a r).0
unfolding preparereq logprop
preparereq-Grows s a r = record {
  instance_grows = ground arith;
  promise_grows = λ e. ground (arith, gt-ge a.n s.n_h, ge_refl s.n_h);
  values_stay = λ i h. ground (arith, value_or-touch {K = ℕ} [] a.instance_ i s.values);
}

acceptreq-Grows : (s : Acceptor) (a : Acceptarg) → Grows s (acceptreq s a).0
unfolding acceptreq logaccept
acceptreq-Grows s a = record {
  instance_grows = ground arith;
  promise_grows = λ e. ground (arith, ge_refl s.n_h);
  values_stay = λ i h. ground arith;
}

commit_wo-Grows : (s : Acceptor) (i : ℕ) (v : Bytes) → Grows s (commit_wo s i v)
unfolding commit_wo loginstance
commit_wo-Grows s i v = record {
  instance_grows = ground arith;
  promise_grows = λ e. ground (arith, ge_refl s.n_h);
  values_stay = λ j h. ground (arith, value_or-insert {K = ℕ} [] i j v s.values);
}

decidereq-Grows : (s t : Acceptor) (a : Decidearg) → decidereq s a ≡ Outcome.ok t → Grows s t
unfolding decidereq
decidereq-Grows s t a h = ground (arith, commit_wo-Grows s a.instance_ s.v_a, Grows-refl s)

serve-Grows : (s t : Acceptor) (q : Request) → serve s q ≡ Outcome.ok t → Grows s t
unfolding serve
serve-Grows s t (prepare a r) h = subst (Grows s) (ok-injective h) (preparereq-Grows s a r)
serve-Grows s t (accept a) h = subst (Grows s) (ok-injective h) (acceptreq-Grows s a)
serve-Grows s t (decide a) h = decidereq-Grows s t a h
serve-Grows s t (commit i v) h = subst (Grows s) (ok-injective h) (commit_wo-Grows s i v)

-- Whatever an acceptor serves, its highest instance never falls, the number that it promised never
-- falls while the instance stays, and the value of a decided instance never changes.
pub serve_all-Grows :
    (s t : Acceptor) (qs : List Request) → serve_all s qs ≡ Outcome.ok t → Grows s t
unfolding serve_all
serve_all-Grows s t [] h = subst (Grows s) (ok-injective h) (Grows-refl s)
serve_all-Grows s t (q ∷ qs) h = elim (Outcome-cases (serve s q)) [
  | inl (u, e) ↦
      Grows-trans s u t (serve-Grows s u q e) (serve_all-Grows u t qs (rw (e, serve_all) at h))
  | inr e ↦ absurd (aborted (rw (e, serve_all) at h))
]
  where
    aborted : Outcome.abort ≡ Outcome.ok t → ⊥
    aborted x = cc

granted_state :
    (s : Acceptor) (a : Preparearg) (r : Prepareres)
    → (preparereq s a r).1.accept ≡ true
    → ((preparereq s a r).0.n_h ≡ a.n) × ((preparereq s a r).0.instance_h ≡ s.instance_h)
unfolding preparereq logprop
granted_state s a r h = ground arith

prepare_refused :
    (t : Acceptor) (b : Preparearg) (r : Prepareres)
    → ge t.n_h b.n ≡ true
    → ((preparereq t b r).1.accept ≡ false) × ((preparereq t b r).0.n_h ≡ t.n_h)
unfolding preparereq
prepare_refused t b r h = ground (arith, ge-not-gt t.n_h b.n)

accept_refused :
    (t : Acceptor) (c : Acceptarg)
    → gt t.n_h c.n ≡ true
    → ((acceptreq t c).1 ≡ false) × ((acceptreq t c).0 ≡ t)
unfolding acceptreq
accept_refused t c h = ground (arith, ge-not-gt c.n t.n_h)

-- After an acceptor granted a prepare request, and as long as it decides no further instance, it
-- refuses each prepare request with the same or a lower number and each accept request with a lower
-- one, and neither changes its proposals.
pub promise_kept :
    (s t : Acceptor) (a : Preparearg) (r : Prepareres) (qs : List Request)
    → (preparereq s a r).1.accept ≡ true
    → serve_all (preparereq s a r).0 qs ≡ Outcome.ok t
    → t.instance_h ≡ s.instance_h
    → (b : Preparearg) (c : Acceptarg) (r' : Prepareres) → ge a.n b.n ≡ true
    → gt a.n c.n ≡ true
    → ((preparereq t b r').1.accept ≡ false)
      × ((preparereq t b r').0.n_h ≡ t.n_h)
      × ((acceptreq t c).1 ≡ false)
      × ((acceptreq t c).0 ≡ t)
promise_kept s t a r qs granted served same b c r' hb hc =
    let (promised, stayed) = granted_state s a r granted in
    let high : ge t.n_h a.n ≡ true =
      rw promised at
        ((serve_all-Grows (preparereq s a r).0 t qs served).promise_grows (stayed ∙ sym same)) in
    let (p, p') = prepare_refused t b r' (ge_trans t.n_h a.n b.n high hb) in
    let (q, q') = accept_refused t c (ge-gt_trans t.n_h a.n c.n high hc) in (p, p', q, q')
