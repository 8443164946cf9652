-- ===== src/Paxos/Log/Replay.antt =====
-- What the reader of the log (`log::logread` of log.cc) makes of a file that the three log functions
-- wrote.
use mathlib.Core.List.{append_assoc}
use ds.Common.{
  ℕ, zero, suc, ◌<◌, ◌≡◌, refl, true, List, [], ◌∷◌, ◌++◌, some, arith, Bytes, codes, insert,
  nat_Eq, nat_eq, read_nat, read_word, IsWord, print_nat, space, newline, is_space, none_of, length,
  All, read_nat-print_nat, read_nat-space, read_word_lem, read_word-space, read_word_end,
  getline_lem, ap, ◌∙◌, bytes_eq, length-append, ◌≤◌,
}
use ds.Paxos.Proposal.{Prop}
use ds.Paxos.State.{Acceptor, u32}
use ds.Paxos.Log.{
  Entry, done, propseen, accepted, print_entry, Read, read_record, read_done, read_propseen,
  read_accepted, logread_loop, logread,
}

-- A text that is read back as one line.
abbrev pub IsLine : Bytes → Type 0
IsLine v = none_of (λ c. nat_eq c newline) v ≡ true

pub record IsProposal (p : Prop) : Type 0 where
  pub fits : p.n < u32
  pub word : IsWord p.m

-- What a record must satisfy to be read back.
abbrev pub IsEntry : Entry → Type 0
IsEntry (done i v) = (i < u32) × IsLine v
IsEntry (propseen p) = IsProposal p
IsEntry (accepted p v) = IsProposal p × IsLine v

-- The effect of a record on the acceptor.
abbrev pub apply_entry : Acceptor → Entry → Acceptor
apply_entry a (done i v) = record a {
  values = insert i v a.values;
  instance_h = i;
  v_a = [];
  n_h = record { n = 0; m = a.n_h.m };
  n_a = record { n = 0; m = a.n_a.m };
}
apply_entry a (propseen p) = record a { n_h = p }
apply_entry a (accepted p v) = record a { n_a = p; v_a = v }

abbrev pub replay : Acceptor → List Entry → Acceptor
replay a [] = a
replay a (e ∷ es) = replay (apply_entry a e) es

abbrev pub print_log : List Entry → Bytes
print_log [] = []
print_log (e ∷ es) = print_entry e ++ print_log es

read_number :
    (n : ℕ) (s : Bytes)
    → n < u32
    → read_nat u32 (space ∷ (print_nat n ++ (space ∷ s))) ≡ some (n, space ∷ s)
read_number n s h = rw (read_nat-space u32) (read_nat-print_nat u32 n (space ∷ s) h refl)

read_name :
    (m : Bytes) (c : ℕ) (s : Bytes)
    → IsWord m
    → is_space c ≡ true
    → read_word (space ∷ (m ++ (c ∷ s))) ≡ some (m, c ∷ s)
read_name m c s w h =
    rw (read_word-space space (m ++ (c ∷ s)) refl) (read_word_lem m (c ∷ s) w.no_space w.ne_nil h)

read_done_lem :
    (a : Acceptor) (i : ℕ) (v s : Bytes)
    → IsEntry (done i v)
    → read_done a (space ∷ (print_nat i ++ (space ∷ (v ++ (newline ∷ s)))))
      ≡ some (apply_entry a (done i v), s)
unfolding read_done
read_done_lem a i v s w = rw (read_number i (v ++ (newline ∷ s)) w.0) (rw (getline_lem v s w.1))

read_propseen_lem :
    (a : Acceptor) (p : Prop) (s : Bytes)
    → IsProposal p
    → read_propseen a (space ∷ (print_nat p.n ++ (space ∷ (p.m ++ (newline ∷ s)))))
      ≡ some (apply_entry a (propseen p), newline ∷ s)
unfolding read_propseen
read_propseen_lem a p s w =
    rw (read_number p.n (p.m ++ (newline ∷ s)) w.fits) (rw (read_name p.m newline s w.word refl))

read_accepted_lem :
    (a : Acceptor) (p : Prop) (v s : Bytes)
    → IsEntry (accepted p v)
    → read_accepted a (space ∷ (print_nat p.n ++ (space ∷ (p.m ++ (space ∷ (v ++ (newline ∷ s)))))))
      ≡ some (apply_entry a (accepted p v), s)
unfolding read_accepted
read_accepted_lem a p v s w =
    rw (read_number p.n (p.m ++ (space ∷ (v ++ (newline ∷ s)))) w.0.fits)
      (rw (read_name p.m space (v ++ (newline ∷ s)) w.0.word refl) (rw (getline_lem v s w.1)))

loop_newline :
    (f : ℕ) (a : Acceptor) (s : Bytes) → logread_loop f a (newline ∷ s) ≡ logread_loop f a s
unfolding logread_loop
loop_newline zero a s = refl
loop_newline (suc f) a s = rw (read_word-space newline s refl, logread_loop)

read_type : (t s : Bytes) → IsWord t → read_word (t ++ (space ∷ s)) ≡ some (t, space ∷ s)
read_type t s w = read_word_lem t (space ∷ s) w.no_space w.ne_nil refl

loop_step :
    (f : ℕ) (a a' : Acceptor) (s s1 s2 t : Bytes)
    → read_word s ≡ some (t, s1)
    → read_record t a s1 ≡ some (some (a', s2))
    → logread_loop (suc f) a s ≡ logread_loop f a' s2
unfolding logread_loop
loop_step f a a' s s1 s2 t h k = rw (h, logread_loop) (rw (k, logread_loop))

print_done-append :
    (i : ℕ) (v s : Bytes)
    → print_entry (done i v) ++ s
      ≡ codes "done" ++ (space ∷ (print_nat i ++ (space ∷ (v ++ (newline ∷ s)))))
unfolding print_entry
print_done-append i v s = simp append_assoc

print_propseen-append :
    (p : Prop) (s : Bytes)
    → print_entry (propseen p) ++ s
      ≡ codes "propseen" ++ (space ∷ (print_nat p.n ++ (space ∷ (p.m ++ (newline ∷ s)))))
unfolding print_entry
print_propseen-append p s = simp append_assoc

print_accepted-append :
    (p : Prop) (v s : Bytes)
    → print_entry (accepted p v) ++ s
      ≡ codes "accepted"
        ++ (space ∷ (print_nat p.n ++ (space ∷ (p.m ++ (space ∷ (v ++ (newline ∷ s)))))))
unfolding print_entry
print_accepted-append p v s = simp append_assoc

done-IsWord : IsWord (codes "done")
unfolding none_of
done-IsWord = record { ne_nil = λ e. cc; no_space = refl }

propseen-IsWord : IsWord (codes "propseen")
unfolding none_of
propseen-IsWord = record { ne_nil = λ e. cc; no_space = refl }

accepted-IsWord : IsWord (codes "accepted")
unfolding none_of
accepted-IsWord = record { ne_nil = λ e. cc; no_space = refl }

read_record_done :
    (a : Acceptor) (s : Bytes) → read_record (codes "done") a s ≡ some (read_done a s)
unfolding read_record bytes_eq
read_record_done a s = refl

read_record_propseen :
    (a : Acceptor) (s : Bytes) → read_record (codes "propseen") a s ≡ some (read_propseen a s)
unfolding read_record bytes_eq
read_record_propseen a s = refl

read_record_accepted :
    (a : Acceptor) (s : Bytes) → read_record (codes "accepted") a s ≡ some (read_accepted a s)
unfolding read_record bytes_eq
read_record_accepted a s = refl

loop_entry :
    (f : ℕ) (a : Acceptor) (e : Entry) (s : Bytes)
    → IsEntry e
    → logread_loop (suc f) a (print_entry e ++ s) ≡ logread_loop f (apply_entry a e) s
loop_entry f a (done i v) s w = rw (print_done-append i v s) (
    loop_step f a _ _ _ s (codes "done") (read_type (codes "done") _ done-IsWord)
      (read_record_done a _ ∙ ap some (read_done_lem a i v s w)))
loop_entry f a (propseen p) s w = rw (print_propseen-append p s) (
    loop_step f a (apply_entry a (propseen p)) _ _ (newline ∷ s) (codes "propseen")
      (read_type (codes "propseen") _ propseen-IsWord)
      (read_record_propseen a _ ∙ ap some (read_propseen_lem a p s w))
    ∙ loop_newline f _ s)
loop_entry f a (accepted p v) s w = rw (print_accepted-append p v s) (
    loop_step f a _ _ _ s (codes "accepted") (read_type (codes "accepted") _ accepted-IsWord)
      (read_record_accepted a _ ∙ ap some (read_accepted_lem a p v s w)))

loop_log :
    (f : ℕ) (a : Acceptor) (es : List Entry)
    → All IsEntry es
    → length es < f
    → logread_loop f a (print_log es) ≡ Read.ok (replay a es)
unfolding logread_loop
loop_log zero a es w h = elim h [ ]
loop_log (suc f) a [] w h = rw (read_word_end, logread_loop)
loop_log (suc f) a (e ∷ es) w h =
    loop_entry f a e (print_log es) w.0 ∙ loop_log f (apply_entry a e) es w.1 (omega arith)

length-print_entry : (e : Entry) → 0 < length (print_entry e)
unfolding print_entry
length-print_entry (done i v) = omega arith
length-print_entry (propseen p) = omega arith
length-print_entry (accepted p v) = omega arith

length-print_log : (es : List Entry) → length es ≤ length (print_log es)
length-print_log [] = omega arith
length-print_log (e ∷ es) =
    omega (
      arith,
      length-print_log es,
      length-print_entry e,
      length-append (print_entry e) (print_log es),
    )

-- Reading a file of records that satisfy `IsEntry` ends normally, and has the effect of the records
-- one after the other.
pub logread-print_log :
    (a : Acceptor) (es : List Entry)
    → All IsEntry es
    → a.file ≡ print_log es
    → logread a ≡ Read.ok (replay a es)
unfolding logread
logread-print_log a es w h =
    simp h (loop_log (suc (length (print_log es))) a es w (omega (arith, length-print_log es)))

pub print_log-append : (es fs : List Entry) → print_log (es ++ fs) ≡ print_log es ++ print_log fs
print_log-append [] fs = refl
print_log-append (e ∷ es) fs = simp (print_log-append es fs, append_assoc)

pub replay-append :
    (a : Acceptor) (es fs : List Entry) → replay a (es ++ fs) ≡ replay (replay a es) fs
replay-append a [] fs = refl
replay-append a (e ∷ es) fs = replay-append (apply_entry a e) es fs
