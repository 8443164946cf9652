-- ===== src/Paxos/Log/Progress.antt =====
-- The progress of the loop of `log::logread` (log.cc) through a file.
use ds.Common.{
  ℕ, zero, suc, ◌≤◌, ◌<◌, ◌≡◌, ◌≢◌, ap, inl, inr, none, some, arith, Bytes, length, bytes_Eq,
  read_nat, read_word, getline, get, read_nat-le, read_word-lt, getline-le, get-le, Option-cases,
}
use ds.Paxos.State.{Acceptor, u32}
use ds.Paxos.Log.{Read, read_record, read_done, read_propseen, read_accepted, logread_loop, logread}

read_done-le : (a a' : Acceptor) (s t : Bytes) → read_done a s ≡ some (a', t) → length t ≤ length s
unfolding read_done
read_done-le a a' s t h = elim (Option-cases (read_nat u32 s)) [
  | inl e ↦ absurd (ground arith)
  | inr ((i, s1), e) ↦
      let rest : (getline (get s1)).1 ≡ t = ground arith in
      omega (arith, ap length rest, read_nat-le u32 s e, get-le s1, getline-le (get s1))
]

read_propseen-le :
    (a a' : Acceptor) (s t : Bytes) → read_propseen a s ≡ some (a', t) → length t ≤ length s
unfolding read_propseen
read_propseen-le a a' s t h = elim (Option-cases (read_nat u32 s)) [
  | inl e ↦ absurd (ground arith)
  | inr ((n, s1), e) ↦ elim (Option-cases (read_word s1)) [
    | inl f ↦ absurd (ground arith)
    | inr ((m, s2), f) ↦
        let rest : s2 ≡ t = ground arith in
        omega (arith, ap length rest, read_nat-le u32 s e, read_word-lt s1 f)
  ]
]

read_accepted-le :
    (a a' : Acceptor) (s t : Bytes) → read_accepted a s ≡ some (a', t) → length t ≤ length s
unfolding read_accepted
read_accepted-le a a' s t h = elim (Option-cases (read_nat u32 s)) [
  | inl e ↦ absurd (ground arith)
  | inr ((n, s1), e) ↦ elim (Option-cases (read_word s1)) [
    | inl f ↦ absurd (ground arith)
    | inr ((m, s2), f) ↦
        let rest : (getline (get s2)).1 ≡ t = ground arith in
        omega (
          arith,
          ap length rest,
          read_nat-le u32 s e,
          read_word-lt s1 f,
          get-le s2,
          getline-le (get s2),
        )
  ]
]

read_record-le :
    (type : Bytes) (a a' : Acceptor) (s t : Bytes)
    → read_record type a s ≡ some (some (a', t))
    → length t ≤ length s
unfolding read_record
read_record-le type a a' s t h =
    ground (arith, read_done-le a a' s t, read_propseen-le a a' s t, read_accepted-le a a' s t)

logread_loop-ne-stuck :
    (f : ℕ) (a : Acceptor) (s : Bytes) → length s < f → logread_loop f a s ≢ Read.stuck
unfolding logread_loop
logread_loop-ne-stuck zero a s h = elim h [ ]
logread_loop-ne-stuck (suc f) a s h = elim (Option-cases (read_word s)) [
  | inl e ↦ rw (e, logread_loop) (λ x. cc)
  | inr ((type, s1), e) ↦ elim (Option-cases (read_record type a s1)) [
    | inl g ↦ rw (e, logread_loop) (rw (g, logread_loop) (λ x. cc))
    | inr (none, g) ↦ rw (e, logread_loop) (rw (g, logread_loop) (λ x. cc))
    | inr (some (a', s2), g) ↦
        rw (e, logread_loop)
          (rw (g, logread_loop)
            (logread_loop-ne-stuck f a' s2
              (omega (arith, read_word-lt s e, read_record-le type a a' s1 s2 g))))
  ]
]

-- The reader of the log ends on every file, whatever it holds: it returns, stops at a field that it
-- cannot read, or aborts on an unknown record.
pub logread-ne-stuck : (a : Acceptor) → logread a ≢ Read.stuck
unfolding logread
logread-ne-stuck a = logread_loop-ne-stuck (suc (length a.file)) a a.file (omega arith)
