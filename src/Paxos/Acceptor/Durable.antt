-- ===== src/Paxos/Acceptor/Durable.antt =====
-- A restart of an acceptor after a crash between requests: the state that it had (the handlers of
-- paxos.cc) and what its log file gives back (log.cc).
use ds.Common.{
  ℕ, ◌<◌, ◌≡◌, inl, inr, refl, Bool, true, false, List, [], ◌∷◌, ◌++◌, arith, Bytes, nat_Eq,
  bytes_Eq, leb, ltb, subst, ok-injective, Outcome-cases, value_or-touch, touch, none_of, All, ap,
  ◌∙◌, sym, Outcome, Bool-cases,
}
use mathlib.Core.List.{append-nil}
use ds.Paxos.Proposal.{Prop, gt, ge}
use ds.Paxos.State.{Acceptor, u32, blank}
use ds.Paxos.Log.{
  Entry, done, propseen, accepted, print_entry, Read, loginstance, logprop, logaccept, logread,
}
use ds.Paxos.Log.Replay.{
  IsProposal, IsLine, IsEntry, apply_entry, replay, print_log, logread-print_log, print_log-append,
  replay-append,
}
use ds.Paxos.Acceptor.{
  Request, prepare, accept, decide, commit, serve, serve_all, Preparearg, Prepareres, Acceptarg,
  Decidearg, preparereq, acceptreq, decidereq, commit_wo, found, acceptor,
}
use ds.Paxos.Acceptor.Same.{Same, Same-apply, Same-replay, Same-trans, Same-refl, IsDurable}

All-append : (es fs : List Entry) → All IsEntry es → All IsEntry fs → All IsEntry (es ++ fs)
All-append [] fs h k = k
All-append (e ∷ es) fs h k = (h.0, All-append es fs h.1 k)

module _ (cfg : Bool) (me : Bytes) where
  -- Nothing is written and nothing that matters changes.
  keep-IsDurable :
      (s t : Acceptor) → IsDurable cfg me s → t.file ≡ s.file → Same s t → IsDurable cfg me t
  keep-IsDurable s t d f h = record {
    entries = d.entries;
    readable = d.readable;
    written = f ∙ d.written;
    restored = Same-trans _ s t d.restored h;
    line = rw (sym h.v_a) d.line;
  }

  -- A record is written, and the state changes as the record says.
  extend-IsDurable :
      (s t : Acceptor) (e : Entry)
      → IsDurable cfg me s
      → IsEntry e
      → t.file ≡ s.file ++ print_entry e
      → Same (apply_entry s e) t
      → IsLine t.v_a
      → IsDurable cfg me t
  extend-IsDurable s t e d w f h l = record {
    entries = d.entries ++ (e ∷ []);
    readable = All-append d.entries (e ∷ []) d.readable (w, tt);
    written =
        f
        ∙ ap (λ x. x ++ print_entry e) d.written
        ∙ ap (◌++◌ (print_log d.entries)) (sym (append-nil (print_entry e)))
        ∙ sym (print_log-append d.entries (e ∷ []));
    restored =
        rw (replay-append (blank cfg me []) d.entries (e ∷ []))
          (Same-trans _ (apply_entry s e) t (Same-apply _ s e d.restored) h);
    line = l;
  }

  promise-IsDurable :
      (s : Acceptor) (p : Prop)
      → IsProposal p
      → IsDurable cfg me s
      → IsDurable cfg me (record (logprop p s) { n_h = p })
  unfolding logprop
  promise-IsDurable s p w d =
      extend-IsDurable s _ (propseen p) d w refl
        (record {
          n_h = (refl, inr refl);
          n_a = (refl, inr refl);
          v_a = refl;
          instance_h = refl;
          values = λ i. refl;
        })
        d.line

  old-IsDurable :
      (s : Acceptor) (i : ℕ)
      → IsDurable cfg me s
      → IsDurable cfg me (record s { values = touch [] i s.values })
  old-IsDurable s i d = keep-IsDurable s _ d refl (record {
    n_h = (refl, inr refl);
    n_a = (refl, inr refl);
    v_a = refl;
    instance_h = refl;
    values = λ j. sym (value_or-touch [] i j s.values);
  })

  preparereq-IsDurable :
      (s : Acceptor) (a : Preparearg) (r : Prepareres)
      → IsProposal a.n
      → IsDurable cfg me s
      → IsDurable cfg me (preparereq s a r).0
  unfolding preparereq
  preparereq-IsDurable s a r w d = elim (Bool-cases (leb a.instance_ s.instance_h)) [
    | inl old ↦ rw old (old-IsDurable s a.instance_ d)
    | inr new ↦ elim (Bool-cases (gt a.n s.n_h)) [
      | inl higher ↦ rw new (rw higher (promise-IsDurable s a.n w d))
      | inr lower ↦ rw new (rw lower d)
    ]
  ]

  acceptreq-IsDurable :
      (s : Acceptor) (a : Acceptarg)
      → IsEntry (accepted a.n a.v)
      → IsDurable cfg me s
      → IsDurable cfg me (acceptreq s a).0
  unfolding acceptreq logaccept
  acceptreq-IsDurable s a w d = elim (Bool-cases (ge a.n s.n_h)) [
    | inl high ↦ rw high (
        extend-IsDurable s _ (accepted a.n a.v) d w refl
          (record {
            n_h = (refl, inr refl);
            n_a = (refl, inr refl);
            v_a = refl;
            instance_h = refl;
            values = λ i. refl;
          })
          w.1)
    | inr low ↦ rw low d
  ]

  commit_wo-IsDurable :
      (s : Acceptor) (i : ℕ) (v : Bytes)
      → IsEntry (done i v)
      → IsDurable cfg me s
      → IsDurable cfg me (commit_wo s i v)
  unfolding commit_wo loginstance none_of
  commit_wo-IsDurable s i v w d = elim (Bool-cases (ltb s.instance_h i)) [
    | inl new ↦ rw new (
        extend-IsDurable s _ (done i v) d w refl
          (record {
            n_h = (refl, inl refl);
            n_a = (refl, inl refl);
            v_a = refl;
            instance_h = refl;
            values = λ j. refl;
          })
          refl)
    | inr old ↦ rw old d
  ]

  decidereq-IsDurable :
      (s t : Acceptor) (a : Decidearg)
      → a.instance_ < u32
      → IsDurable cfg me s
      → decidereq s a ≡ Outcome.ok t
      → IsDurable cfg me t
  unfolding decidereq
  decidereq-IsDurable s t a w d h =
      ground (arith, commit_wo-IsDurable s a.instance_ s.v_a (w, d.line) d)

  -- What the requests carry: numbers of their machine types, names without white space, and values
  -- without a line feed.
  abbrev pub IsRequest : Request → Type 0
  IsRequest (prepare a r) = IsProposal a.n
  IsRequest (accept a) = IsProposal a.n × IsLine a.v
  IsRequest (decide a) = a.instance_ < u32
  IsRequest (commit i v) = (i < u32) × IsLine v

  serve-IsDurable :
      (s t : Acceptor) (q : Request)
      → IsRequest q
      → IsDurable cfg me s
      → serve s q ≡ Outcome.ok t
      → IsDurable cfg me t
  unfolding serve
  serve-IsDurable s t (prepare a r) w d h =
      subst (IsDurable cfg me) (ok-injective h) (preparereq-IsDurable s a r w d)
  serve-IsDurable s t (accept a) w d h =
      subst (IsDurable cfg me) (ok-injective h) (acceptreq-IsDurable s a w d)
  serve-IsDurable s t (decide a) w d h = decidereq-IsDurable s t a w d h
  serve-IsDurable s t (commit i v) w d h =
      subst (IsDurable cfg me) (ok-injective h) (commit_wo-IsDurable s i v w d)

  serve_all-IsDurable :
      (s t : Acceptor) (qs : List Request)
      → All IsRequest qs
      → IsDurable cfg me s
      → serve_all s qs ≡ Outcome.ok t
      → IsDurable cfg me t
  unfolding serve_all
  serve_all-IsDurable s t [] w d h = subst (IsDurable cfg me) (ok-injective h) d
  serve_all-IsDurable s t (q ∷ qs) w d h = elim (Outcome-cases (serve s q)) [
    | inl (u, e) ↦
        serve_all-IsDurable u t qs w.1 (serve-IsDurable s u q w.0 d e) (rw (e, serve_all) at h)
    | inr e ↦ absurd (not_ok t (rw (e, serve_all) at h))
  ]
    where
      not_ok : (u : Acceptor) → Outcome.abort ≡ Outcome.ok u → ⊥
      not_ok u x = cc

  blank-file : (f : Bytes) → (blank cfg me f).file ≡ f
  unfolding blank
  blank-file f = refl

  read_ok-injective : {a b : Acceptor} → Read.ok a ≡ Read.ok b → a ≡ b
  read_ok-injective h = cc

  -- A log file of readable records gives the state back.
  IsDurable-recover :
      (s : Acceptor)
      → IsDurable cfg me s
      → (t : Acceptor) × (logread (blank cfg me s.file) ≡ Read.ok t) × Same t s
  unfolding blank
  IsDurable-recover s d = (
    replay (blank cfg me s.file) d.entries,
    logread-print_log (blank cfg me s.file) d.entries d.readable (blank-file s.file ∙ d.written),
    Same-trans _ _ s (Same-replay _ _ d.entries (blank-Same s.file)) d.restored,
  )
    where
      blank-Same : (f : Bytes) → Same (blank cfg me f) (blank cfg me [])
      blank-Same f = record {
        n_h = (refl, inr refl);
        n_a = (refl, inr refl);
        v_a = refl;
        instance_h = refl;
        values = λ i. refl;
      }

  found-IsDurable :
      (first : Bool) (v : Bytes) → IsLine v → IsDurable cfg me (found first v (blank cfg me []))
  unfolding found blank loginstance none_of
  found-IsDurable false v w = record {
    entries = [];
    readable = tt;
    written = refl;
    restored = Same-refl _;
    line = refl;
  }
  found-IsDurable true v w = record {
    entries = done 1 v ∷ [];
    readable = ((omega arith, w), tt);
    written = sym (append-nil (print_entry (done 1 v)));
    restored = record {
      n_h = (refl, inl refl);
      n_a = (refl, inl refl);
      v_a = refl;
      instance_h = refl;
      values = λ j. refl;
    };
    line = refl;
  }

  acceptor_empty :
      (first : Bool) (v : Bytes)
      → acceptor cfg first me v [] ≡ Read.ok (found first v (blank cfg me []))
  unfolding acceptor
  acceptor_empty first v =
      rw (logread-print_log (blank cfg me []) [] tt (blank-file []), acceptor) refl

  -- A node that starts with an empty log, serves any requests of well-formed contents without a
  -- failed check, crashes and starts again reads back from its log a state with the same promised
  -- and accepted proposals (addresses aside under number 0), the same accepted value, the same
  -- highest instance and the same value of every instance.
  pub acceptor-logread :
      (first : Bool) (v : Bytes) (qs : List Request) (start s : Acceptor)
      → IsLine v
      → All IsRequest qs
      → acceptor cfg first me v [] ≡ Read.ok start
      → serve_all start qs ≡ Outcome.ok s
      → (t : Acceptor) × (logread (blank cfg me s.file) ≡ Read.ok t) × Same t s
  acceptor-logread first v qs start s line w started h = IsDurable-recover s (
      serve_all-IsDurable start s qs w
        (subst (IsDurable cfg me) (read_ok-injective (sym (acceptor_empty first v) ∙ started))
          (found-IsDurable first v line))
        h)
