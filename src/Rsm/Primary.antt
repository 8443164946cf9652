-- ===== src/Rsm/Primary.antt =====
-- The primary of the replicated state machine (rsm.cc) through the view changes.
use ds.Common.{
  ℕ, zero, suc, ◌+◌, ◌-◌, ◌%◌, ◌^◌, ◌≤◌, ◌<◌, ◌≡◌, refl, sym, ◌∙◌, subst, Bool, true, false, List,
  [], ◌∷◌, some, Bytes, bytes_Eq, leb, if◌then◌else◌, arith, Outcome, if_true, if_false, Bool-cases,
  inl, inr,
}
use ds.Paxos.Quorum.{isamember}
use ds.Rsm.{Cfg, ismember, Rsm, first_in, is_nil, set_primary, committed, commit_change_wo}

-- Whether two views share a member.
unfoldable pub meet : List Bytes → List Bytes → Bool
meet c [] = false
meet c (m ∷ p) = if isamember m c then true else meet c p

first_in-meet :
    (c p : List Bytes)
    → meet c p ≡ true
    → (m : Bytes) × (first_in c p ≡ some m) × (isamember m c ≡ true) × (isamember m p ≡ true)
unfolding meet first_in isamember
first_in-meet c [] h = absurd (cc)
first_in-meet c (m ∷ p) h = elim (Bool-cases (isamember m c)) [
  | inl k ↦ (
    m,
    if_true (isamember m c) (some m) (first_in c p) k,
    k,
    ground (arith, bytes_Eq.beq_iff m m),
  )
  | inr k ↦
      let (x, f, g, q) =
        first_in-meet c p (subst (λ b. (if b then true else meet c p) ≡ true) k h) in
      (x, if_false (isamember m c) (some m) (first_in c p) k ∙ f, g, ground (arith, q))
]

meet-is_nil : (c p : List Bytes) → meet c p ≡ true → (is_nil c ≡ false) × (is_nil p ≡ false)
unfolding meet isamember
meet-is_nil [] [] h = absurd (cc)
meet-is_nil [] (m ∷ p) h = meet_nil p h
  where
    meet_nil : (p : List Bytes) → meet [] p ≡ true → (true ≡ false) × (false ≡ false)
    meet_nil [] k = absurd (cc)
    meet_nil (m ∷ q) k = meet_nil q k
meet-is_nil (x ∷ c) [] h = absurd (cc)
meet-is_nil (x ∷ c) (m ∷ p) h = (refl, refl)

-- What a view change comes to: the process goes on, in the new view, with a primary of that view.
pub record Changes (cfg : Cfg) (r : Rsm) (vid : ℕ) (s : Rsm) : Type 0 where
  pub commits : s.vid_commit ≡ vid
  pub changing : s.inviewchange ≡ true
  pub member : ismember cfg s.primary vid ≡ true
  pub stays : ismember cfg r.primary vid ≡ true → s.primary ≡ r.primary
  pub was_member :
      ismember cfg r.primary vid ≡ false
      → ismember cfg s.primary ((vid + (2 ^ 32 - 1)) % 2 ^ 32) ≡ true
  pub break2 : s.break2 ≡ r.break2

set_primary_lem :
    (cfg : Cfg) (r : Rsm) (vid : ℕ)
    → meet (cfg.get_view vid) (cfg.get_view ((vid + (2 ^ 32 - 1)) % 2 ^ 32)) ≡ true
    → (s : Rsm) × (set_primary cfg (record r { vid_commit = vid; inviewchange = true }) vid
        ≡ Outcome.ok s)
      × Changes cfg r vid s
unfolding set_primary
set_primary_lem cfg r vid h =
    let (c, p) = meet-is_nil (cfg.get_view vid) (cfg.get_view ((vid + (2 ^ 32 - 1)) % 2 ^ 32)) h in
    let (m, f, g, q) =
      first_in-meet (cfg.get_view vid) (cfg.get_view ((vid + (2 ^ 32 - 1)) % 2 ^ 32)) h in
    elim (Bool-cases (isamember r.primary (cfg.get_view vid))) [
      | inl k ↦ (
        record r { vid_commit = vid; inviewchange = true },
        simp (c, k) refl,
        record {
          commits = refl;
          changing = refl;
          member = k;
          stays = λ e. refl;
          was_member = λ e. ground (arith, e, k);
          break2 = refl;
        },
      )
      | inr k ↦ (
        record r { vid_commit = vid; inviewchange = true; primary = m },
        simp (c, k, p, f) refl,
        record {
          commits = refl;
          changing = refl;
          member = g;
          stays = λ e. ground (arith, e, k);
          was_member = λ e. q;
          break2 = refl;
        },
      )
    ]

committed_lem :
    (cfg : Cfg) (r : Rsm) → r.break2 ≡ false → committed cfg (Outcome.ok r) ≡ Outcome.ok r
committed_lem cfg r h = elim (Bool-cases (ismember cfg cfg.myaddr r.vid_commit)) [
  | inl k ↦ simp (k, h) refl
  | inr k ↦ simp k refl
]

-- A change to a later view that shares a member with the view before it does not stop the process. The
-- primary stays if the new view has it, and is otherwise a member of both views; the machine is in a
-- view change. Breakpoint 2 is not set.
pub commit_change_wo-Changes :
    (cfg : Cfg) (r : Rsm) (vid : ℕ)
    → r.vid_commit < vid
    → r.break2 ≡ false
    → meet (cfg.get_view vid) (cfg.get_view ((vid + (2 ^ 32 - 1)) % 2 ^ 32)) ≡ true
    → (s : Rsm) × (commit_change_wo cfg r vid ≡ Outcome.ok s) × Changes cfg r vid s
unfolding commit_change_wo
commit_change_wo-Changes cfg r vid l b h =
    let (s, e, c) = set_primary_lem cfg r vid h in
    let later : leb vid r.vid_commit ≡ false = ground arith in
    (s, simp (later, e) (committed_lem cfg s (c.break2 ∙ b)), c)

-- A view that is not later changes nothing.
pub commit_change_wo_old :
    (cfg : Cfg) (r : Rsm) (vid : ℕ) → vid ≤ r.vid_commit → commit_change_wo cfg r vid ≡ Outcome.ok r
unfolding commit_change_wo
commit_change_wo_old cfg r vid h = let k : leb vid r.vid_commit ≡ true = ground arith in simp k refl

abbrev then_commit : Cfg → Outcome Rsm → ℕ → Outcome Rsm
then_commit cfg Outcome.abort vid = Outcome.abort
then_commit cfg (Outcome.ok r) vid = commit_change_wo cfg r vid

-- The next views, one after the other, each committed with the views as they are then: a view is
-- decided only shortly before its commit.
unfoldable pub commit_all : (ℕ → Cfg) → Rsm → ℕ → Outcome Rsm
commit_all cfgs r zero = Outcome.ok r
commit_all cfgs r (suc n) =
    then_commit (cfgs (r.vid_commit + suc n)) (commit_all cfgs r n) (r.vid_commit + suc n)

-- Through the next `n` views, of which each shares a member with the one before it as both are known
-- when it is committed, the process goes on, and the primary is a member of the last view. The primary
-- is one of the first view, breakpoint 2 is not set, and the numbers of the views have 32 bits.
pub commit_all_lem :
    (cfgs : ℕ → Cfg) (r : Rsm) (n : ℕ)
    → ((i : ℕ)
        → r.vid_commit ≤ i
        → i < r.vid_commit + n
        → meet ((cfgs (suc i)).get_view (suc i)) ((cfgs (suc i)).get_view i) ≡ true)
    → ismember (cfgs r.vid_commit) r.primary r.vid_commit ≡ true
    → r.break2 ≡ false
    → r.vid_commit + n < 2 ^ 32
    → (s : Rsm) × (commit_all cfgs r n ≡ Outcome.ok s)
      × (s.vid_commit ≡ r.vid_commit + n)
      × (ismember (cfgs s.vid_commit) s.primary s.vid_commit ≡ true)
      × (s.break2 ≡ false)
unfolding commit_all
commit_all_lem cfgs r zero h m b l = (r, refl, omega arith, m, b)
commit_all_lem cfgs r (suc n) h m b l =
    let (s, e, v, k, c) =
      commit_all_lem cfgs r n (λ i f g. h i f (omega (arith, g))) m b (omega arith) in
    let vid = r.vid_commit + suc n in
    let cfg = cfgs vid in
    let before : (vid + (2 ^ 32 - 1)) % 2 ^ 32 ≡ r.vid_commit + n = omega arith in
    let next : suc (r.vid_commit + n) ≡ vid = omega arith in
    let both : meet (cfg.get_view vid) (cfg.get_view ((vid + (2 ^ 32 - 1)) % 2 ^ 32)) ≡ true =
      subst (λ i. meet (cfg.get_view vid) (cfg.get_view i) ≡ true) (sym before)
        (subst (λ i. meet ((cfgs i).get_view i) ((cfgs i).get_view (r.vid_commit + n)) ≡ true) next
          (h (r.vid_commit + n) (omega arith) (omega arith))) in
    let (t, f, d) = commit_change_wo-Changes cfg s vid (omega (arith, v)) c both in
    (
      t,
      rw e f,
      d.commits,
      subst (λ i. ismember (cfgs i) t.primary i ≡ true) (sym d.commits) d.member,
      d.break2 ∙ c,
    )
