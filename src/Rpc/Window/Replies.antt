-- ===== src/Rpc/Window/Replies.antt =====
-- Which reply a duplicate request gets (`rpcs::checkduplicate_and_update` and `rpcs::add_reply` of
-- rpc/rpc.cc).
use ds.Common.{
  ℕ, ◌≤◌, ◌<◌, ◌≡◌, ◌≢◌, ◌⊎◌, inl, inr, refl, Bool, true, false, ◌||◌, List, [], ◌∷◌, ◌++◌, Option,
  none, some, arith, lookup, value_or, nat_Eq, nat_eq, if◌then◌else◌, All, value_or-insert,
  value_or-touch, Option-cases, Bool-cases,
}
use ds.Rpc.Window.{
  ReplyT, reply_t, RpcState, Window, find_reply, is_forgotten, trim, check,
  checkduplicate_and_update, set_reply, add_reply, enter_client, Call, enters, checks, replies,
  step,
}

abbrev pub entry : Window → ℕ → ℕ → Option ReplyT
entry s clt xid = find_reply xid (value_or [] clt s.reply_window)

trim_kept : (x rep : ℕ) (l : List ReplyT) → rep < x → find_reply x (trim rep l).0 ≡ find_reply x l
unfolding trim find_reply
trim_kept x rep [] h = refl
trim_kept x rep (r ∷ l) h = ground (arith, trim_kept x rep l)

find_reply-push_old :
    (x y : ℕ) (l : List ReplyT) (r : ReplyT)
    → find_reply x l ≡ some r
    → find_reply x (l ++ (reply_t y ∷ [])) ≡ some r
unfolding find_reply
find_reply-push_old x y [] r h = cc
find_reply-push_old x y (q ∷ l) r h = ground (arith, find_reply-push_old x y l r)

find_reply-push_new :
    (x : ℕ) (l : List ReplyT)
    → find_reply x l ≡ none
    → find_reply x (l ++ (reply_t x ∷ [])) ≡ some (reply_t x)
unfolding find_reply reply_t
find_reply-push_new x [] h = ground arith
find_reply-push_new x (q ∷ l) h = ground (arith, find_reply-push_new x l)

check-entry :
    (s : Window) (clt xid x : ℕ) (r : ReplyT)
    → entry s clt x ≡ some r
    → find_reply x (check s clt xid).2 ≡ some r
unfolding check find_reply
check-entry s clt xid x r h = elim (Option-cases (lookup clt s.reply_window)) [
  | inl e ↦ ground arith
  | inr (l, e) ↦ elim (Option-cases (find_reply xid l)) [
    | inr (q, f) ↦ ground arith
    | inl f ↦ elim (Bool-cases (is_forgotten xid (value_or [] clt s.the_forgottens))) [
      | inl g ↦ ground arith
      | inr g ↦ ground (arith, find_reply-push_old x xid l r)
    ]
  ]
]

-- An entry stays while no acknowledgement reaches it.
checkduplicate-entry :
    (s : Window) (clt xid rep c x : ℕ) (r : ReplyT)
    → entry s c x ≡ some r
    → (clt ≡ c → rep < x)
    → entry (checkduplicate_and_update s clt xid rep).0 c x ≡ some r
unfolding checkduplicate_and_update
checkduplicate-entry s clt xid rep c x r h ack = elim (Bool-cases (nat_eq clt c)) [
  | inl e ↦
      let same : clt ≡ c = ground arith in
      ground (
        arith,
        ack same,
        value_or-insert {K = ℕ} [] clt c (trim rep (check s clt xid).2).0 s.reply_window,
        trim_kept x rep (check s clt xid).2,
        check-entry s clt xid x r,
      )
  | inr e ↦
      ground
        (arith, value_or-insert {K = ℕ} [] clt c (trim rep (check s clt xid).2).0 s.reply_window)
]

-- A request with an entry is answered with it.
pub checkduplicate_done :
    (s : Window) (clt xid rep : ℕ) (r : ReplyT)
    → entry s clt xid ≡ some r
    → ((checkduplicate_and_update s clt xid rep).1 ≡ RpcState.done)
      × ((checkduplicate_and_update s clt xid rep).2 ≡ some r)
unfolding checkduplicate_and_update check find_reply
checkduplicate_done s clt xid rep r h = elim (Option-cases (lookup clt s.reply_window)) [
  | inl e ↦ absurd (ground arith)
  | inr (l, e) ↦ ground arith
]

set_reply-find :
    (x b sz : ℕ) (l : List ReplyT) (r : ReplyT)
    → find_reply x l ≡ some r
    → find_reply x (set_reply x b sz l) ≡ some (record r { buf = some b; sz = sz })
unfolding find_reply set_reply
set_reply-find x b sz [] r h = cc
set_reply-find x b sz (q ∷ l) r h = ground (arith, set_reply-find x b sz l r)

set_reply-find_ne :
    (x y b sz : ℕ) (l : List ReplyT) → x ≢ y → find_reply x (set_reply y b sz l) ≡ find_reply x l
unfolding find_reply set_reply
set_reply-find_ne x y b sz [] h = refl
set_reply-find_ne x y b sz (q ∷ l) h = ground (arith, set_reply-find_ne x y b sz l)

-- The calls that leave the reply to a request alone: no acknowledgement of the client reaches it,
-- and no other reply to it is added.
abbrev pub Spares : ℕ → ℕ → Call → Type 0
Spares c x (enters clt) = Unit {0}
Spares c x (checks clt xid rep) = clt ≡ c → rep < x
Spares c x (replies clt xid b sz) = (clt ≢ c) ⊎ (x ≢ xid)

step-entry :
    (c x : ℕ) (s : Window) (k : Call) (r : ReplyT)
    → Spares c x k
    → entry s c x ≡ some r
    → entry (step s k) c x ≡ some r
unfolding step enter_client add_reply
step-entry c x s (enters clt) r h e = ground (arith, value_or-touch {K = ℕ} [] clt c s.reply_window)
step-entry c x s (checks clt xid rep) r h e = checkduplicate-entry s clt xid rep c x r e h
step-entry c x s (replies clt xid b sz) r h e = ground (
  arith,
  value_or-insert {K = ℕ} [] clt c (set_reply xid b sz (value_or [] clt s.reply_window))
      s.reply_window,
  set_reply-find_ne x xid b sz (value_or [] clt s.reply_window),
)

unfoldable pub steps : Window → List Call → Window
steps s [] = s
steps s (k ∷ ks) = steps (step s k) ks

steps-entry :
    (c x : ℕ) (s : Window) (ks : List Call) (r : ReplyT)
    → All (Spares c x) ks
    → entry s c x ≡ some r
    → entry (steps s ks) c x ≡ some r
unfolding steps
steps-entry c x s [] r h e = e
steps-entry c x s (k ∷ ks) r h e = steps-entry c x (step s k) ks r h.1 (step-entry c x s k r h.0 e)

check_new_entry :
    (s : Window) (clt xid : ℕ)
    → (check s clt xid).0 ≡ RpcState.new
    → find_reply xid (check s clt xid).2 ≡ some (reply_t xid)
unfolding check find_reply reply_t
check_new_entry s clt xid h = elim (Option-cases (lookup clt s.reply_window)) [
  | inl e ↦ ground arith
  | inr (l, e) ↦ elim (Option-cases (find_reply xid l)) [
    | inr (q, f) ↦ ground arith
    | inl f ↦ elim (Bool-cases (is_forgotten xid (value_or [] clt s.the_forgottens))) [
      | inl g ↦ ground arith
      | inr g ↦ ground (arith, find_reply-push_new xid l)
    ]
  ]
]

new_entry :
    (s : Window) (clt xid rep : ℕ)
    → (checkduplicate_and_update s clt xid rep).1 ≡ RpcState.new
    → rep < xid
    → entry (checkduplicate_and_update s clt xid rep).0 clt xid ≡ some (reply_t xid)
unfolding checkduplicate_and_update
new_entry s clt xid rep h ack = ground (
  arith,
  value_or-insert {K = ℕ} [] clt clt (trim rep (check s clt xid).2).0 s.reply_window,
  trim_kept xid rep (check s clt xid).2,
  check_new_entry s clt xid,
)

add_reply-entry :
    (s : Window) (clt xid b sz : ℕ) (r : ReplyT)
    → entry s clt xid ≡ some r
    → entry (add_reply s clt xid b sz) clt xid ≡ some (record r { buf = some b; sz = sz })
unfolding add_reply
add_reply-entry s clt xid b sz r h = ground (
  arith,
  value_or-insert {K = ℕ} [] clt clt (set_reply xid b sz (value_or [] clt s.reply_window))
      s.reply_window,
  set_reply-find xid b sz (value_or [] clt s.reply_window) r,
)

-- After a request was found new, its reply was added, and calls were made that neither acknowledge
-- it nor add another reply to it, both before and after the reply, a duplicate is answered with
-- exactly that reply.
pub reply_replayed :
    (s : Window) (c x rep rep' b sz : ℕ) (ks ls : List Call)
    → (checkduplicate_and_update s c x rep).1 ≡ RpcState.new
    → rep < x
    → All (Spares c x) ks
    → All (Spares c x) ls
    → let t = steps (add_reply (steps (checkduplicate_and_update s c x rep).0 ks) c x b sz) ls in
      ((checkduplicate_and_update t c x rep').1 ≡ RpcState.done)
      × ((checkduplicate_and_update t c x rep').2
          ≡ some (record { xid = x; cb_present = false; buf = some b; sz = sz }))
unfolding reply_t
reply_replayed s c x rep rep' b sz ks ls h ack hk hl = checkduplicate_done _ c x rep' _ (
    steps-entry c x _ ls _ hl
      (add_reply-entry _ c x b sz _ (steps-entry c x _ ks _ hk (new_entry s c x rep h ack))))

-- The check never finds a request in progress: a duplicate that arrives while the handler still runs
-- is taken for done, and gets the null buffer of size 0 that stands for the missing reply.
pub duplicate_in_progress :
    (s : Window) (c x rep rep' : ℕ) (ks : List Call)
    → (checkduplicate_and_update s c x rep).1 ≡ RpcState.new
    → rep < x
    → All (Spares c x) ks
    → let t = steps (checkduplicate_and_update s c x rep).0 ks in
      ((checkduplicate_and_update t c x rep').1 ≡ RpcState.done)
      × ((checkduplicate_and_update t c x rep').2
          ≡ some (record { xid = x; cb_present = false; buf = none; sz = 0 }))
unfolding reply_t
duplicate_in_progress s c x rep rep' ks h ack hk =
    checkduplicate_done _ c x rep' _ (steps-entry c x _ ks _ hk (new_entry s c x rep h ack))

-- The buffer is among the freed ones.
abbrev pub is_freed : ℕ → List (Option ℕ) → Bool
is_freed b [] = false
is_freed b (none ∷ l) = is_freed b l
is_freed b (some a ∷ l) = if nat_eq a b then true else is_freed b l

is_freed-append :
    (b : ℕ) (l k : List (Option ℕ)) → is_freed b (l ++ k) ≡ (is_freed b l || is_freed b k)
is_freed-append b [] k = refl
is_freed-append b (none ∷ l) k = is_freed-append b l k
is_freed-append b (some a ∷ l) k = ground (arith, is_freed-append b l k)

trim_freed :
    (x rep b : ℕ) (l : List ReplyT) (r : ReplyT)
    → find_reply x l ≡ some r
    → r.buf ≡ some b
    → x ≤ rep
    → is_freed b (trim rep l).2 ≡ true
unfolding find_reply trim
trim_freed x rep b [] r h e le = cc
trim_freed x rep b (q ∷ l) r h e le = ground (
  arith,
  trim_freed x rep b l r,
  is_freed-append b (q.buf ∷ []) (trim rep l).2,
  is_freed_self b q.buf,
)
  where
    is_freed_self : (b : ℕ) (o : Option ℕ) → o ≡ some b → is_freed b (o ∷ []) ≡ true
    is_freed_self b none h = cc
    is_freed_self b (some a) h = ground arith

checkduplicate-freed :
    (s : Window) (c x rep b : ℕ) (r : ReplyT)
    → entry s c x ≡ some r
    → r.buf ≡ some b
    → x ≤ rep
    → is_freed b (checkduplicate_and_update s c x rep).0.freed ≡ true
unfolding checkduplicate_and_update
checkduplicate-freed s c x rep b r h e le = ground (
  arith,
  is_freed-append b s.freed (trim rep (check s c x).2).2,
  trim_freed x rep b (check s c x).2 r,
  check-entry s c x x r,
)

-- A duplicate that acknowledges itself is answered with a buffer that the same call has freed.
pub done_freed :
    (s : Window) (c x rep b : ℕ) (r : ReplyT)
    → entry s c x ≡ some r
    → r.buf ≡ some b
    → x ≤ rep
    → ((checkduplicate_and_update s c x rep).1 ≡ RpcState.done)
      × ((checkduplicate_and_update s c x rep).2 ≡ some r)
      × (is_freed b (checkduplicate_and_update s c x rep).0.freed ≡ true)
done_freed s c x rep b r h e le =
    let (d, o) = checkduplicate_done s c x rep r h in
    (d, o, checkduplicate-freed s c x rep b r h e le)
