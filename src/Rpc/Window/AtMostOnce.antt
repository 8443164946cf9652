-- ===== src/Rpc/Window/AtMostOnce.antt =====
-- Which requests are taken for new (`rpcs::checkduplicate_and_update` of rpc/rpc.cc).
use ds.Common.{
  ℕ, ◌+◌, ◌≤◌, ◌≡◌, inl, inr, refl, Bool, true, false, ◌||◌, List, [], ◌∷◌, ◌++◌, arith, Map,
  lookup, value_or, nat_Eq, is_some, nat_eq, if◌then◌else◌, Bool-cases, Option-cases, lookup-insert,
  value_or-insert, value_or-touch, ◌&&◌,
}
use ds.Rpc.Window.{
  ReplyT, reply_t, RpcState, Window, find_reply, is_forgotten, trim, check, forget,
  checkduplicate_and_update, set_reply, add_reply, enter_client, Call, enters, checks, replies,
  step, is_new, executes, executions, empty,
}

-- The request is in the window or among the forgotten ones.
abbrev pub seen : Window → ℕ → ℕ → Bool
seen s clt xid =
    is_some (find_reply xid (value_or [] clt s.reply_window))
    || is_forgotten xid (value_or [] clt s.the_forgottens)

-- A client of which a request was forgotten has a window.
abbrev pub IsKnown : Window → Type 0
IsKnown s = (clt xid : ℕ) → seen s clt xid ≡ true → is_some (lookup clt s.reply_window) ≡ true

is_forgotten-append :
    (x : ℕ) (l k : List ℕ) → is_forgotten x (l ++ k) ≡ (is_forgotten x l || is_forgotten x k)
unfolding is_forgotten
is_forgotten-append x [] k = refl
is_forgotten-append x (y ∷ l) k = ground (arith, is_forgotten-append x l k)

-- Trimming loses no request: it is kept or forgotten.
trim_seen :
    (x rep : ℕ) (l : List ReplyT)
    → (is_some (find_reply x (trim rep l).0) || is_forgotten x (trim rep l).1)
      ≡ is_some (find_reply x l)
unfolding trim find_reply is_forgotten
trim_seen x rep [] = refl
trim_seen x rep (r ∷ l) = ground (arith, trim_seen x rep l)

forget_seen :
    (clt c x : ℕ) (gone : List ℕ) (m : Map ℕ (List ℕ))
    → is_forgotten x (value_or [] c (forget clt gone m))
      ≡ (is_forgotten x (value_or [] c m) || (nat_eq clt c && is_forgotten x gone))
unfolding is_forgotten
forget_seen clt c x [] m = ground arith
forget_seen clt c x (y ∷ gone) m = ground (
  arith,
  value_or-insert {K = ℕ} [] clt c (value_or [] clt m ++ (y ∷ gone)) m,
  is_forgotten-append x (value_or [] clt m) (y ∷ gone),
)

find_reply-push :
    (x y : ℕ) (l : List ReplyT)
    → is_some (find_reply x (l ++ (reply_t y ∷ []))) ≡ (is_some (find_reply x l) || nat_eq y x)
unfolding find_reply reply_t
find_reply-push x y [] = ground arith
find_reply-push x y (r ∷ l) = ground (arith, find_reply-push x y l)

-- With the list that `check` leaves for the client, the seen requests are the old ones and this.
check-seen :
    (s : Window) (clt xid x : ℕ)
    → (is_some (find_reply x (check s clt xid).2)
        || is_forgotten x (value_or [] clt s.the_forgottens))
      ≡ (seen s clt x || nat_eq xid x)
unfolding check find_reply reply_t
check-seen s clt xid x = elim (Option-cases (lookup clt s.reply_window)) [
  | inl e ↦ ground arith
  | inr (l, e) ↦ elim (Option-cases (find_reply xid l)) [
    | inr (r, f) ↦ ground arith
    | inl f ↦ elim (Bool-cases (is_forgotten xid (value_or [] clt s.the_forgottens))) [
      | inl g ↦ ground arith
      | inr g ↦ ground (arith, find_reply-push x xid l)
    ]
  ]
]

-- A request that is found new was not seen.
check_new :
    (s : Window) (clt xid : ℕ)
    → IsKnown s
    → (check s clt xid).0 ≡ RpcState.new
    → seen s clt xid ≡ false
unfolding check
check_new s clt xid known h = ground (arith, known clt xid)

module _ (s : Window) (clt xid rep : ℕ) where
  abbrev after : Window
  after = (checkduplicate_and_update s clt xid rep).0

  -- After the call the seen requests are those seen before and this one.
  pub checkduplicate-seen :
      (c x : ℕ) → seen after c x ≡ (seen s c x || (nat_eq clt c && nat_eq xid x))
  unfolding checkduplicate_and_update
  checkduplicate-seen c x = ground (
    arith,
    value_or-insert {K = ℕ} [] clt c (trim rep (check s clt xid).2).0 s.reply_window,
    forget_seen clt c x (trim rep (check s clt xid).2).1 s.the_forgottens,
    trim_seen x rep (check s clt xid).2,
    check-seen s clt xid x,
  )

  checkduplicate-key :
      (c : ℕ)
      → is_some (lookup c after.reply_window) ≡ (is_some (lookup c s.reply_window) || nat_eq clt c)
  unfolding checkduplicate_and_update
  checkduplicate-key c =
      ground (arith, lookup-insert clt c (trim rep (check s clt xid).2).0 s.reply_window)

  checkduplicate-IsKnown : IsKnown s → IsKnown after
  checkduplicate-IsKnown known c x h =
      ground (arith, checkduplicate-seen c x, checkduplicate-key c, known c x)

  checkduplicate-new :
      IsKnown s
      → (checkduplicate_and_update s clt xid rep).1 ≡ RpcState.new
      → seen s clt xid ≡ false
  unfolding checkduplicate_and_update
  checkduplicate-new known h = check_new s clt xid known h

find_reply-set_reply :
    (x xid b sz : ℕ) (l : List ReplyT)
    → is_some (find_reply x (set_reply xid b sz l)) ≡ is_some (find_reply x l)
unfolding find_reply set_reply
find_reply-set_reply x xid b sz [] = refl
find_reply-set_reply x xid b sz (r ∷ l) = ground (arith, find_reply-set_reply x xid b sz l)

add_reply-seen :
    (s : Window) (clt xid b sz c x : ℕ) → seen (add_reply s clt xid b sz) c x ≡ seen s c x
unfolding add_reply
add_reply-seen s clt xid b sz c x = ground (
  arith,
  value_or-insert {K = ℕ} [] clt c (set_reply xid b sz (value_or [] clt s.reply_window))
      s.reply_window,
  find_reply-set_reply x xid b sz (value_or [] clt s.reply_window),
)

add_reply-IsKnown : (s : Window) (clt xid b sz : ℕ) → IsKnown s → IsKnown (add_reply s clt xid b sz)
unfolding add_reply
add_reply-IsKnown s clt xid b sz known c x h = ground (
  arith,
  add_reply-seen s clt xid b sz c x,
  known c x,
  lookup-insert clt c (set_reply xid b sz (value_or [] clt s.reply_window)) s.reply_window,
)

enter_client-seen : (s : Window) (clt c x : ℕ) → seen (enter_client s clt) c x ≡ seen s c x
unfolding enter_client
enter_client-seen s clt c x = ground (arith, value_or-touch {K = ℕ} [] clt c s.reply_window)

enter_client-IsKnown : (s : Window) (clt : ℕ) → IsKnown s → IsKnown (enter_client s clt)
unfolding enter_client
enter_client-IsKnown s clt known c x h = ground (
  arith,
  enter_client-seen s clt c x,
  known c x,
  lookup-insert clt c (value_or [] clt s.reply_window) s.reply_window,
)

step-IsKnown : (s : Window) (k : Call) → IsKnown s → IsKnown (step s k)
unfolding step
step-IsKnown s (enters clt) known = enter_client-IsKnown s clt known
step-IsKnown s (checks clt xid rep) known = checkduplicate-IsKnown s clt xid rep known
step-IsKnown s (replies clt xid b sz) known = add_reply-IsKnown s clt xid b sz known

-- What a call adds to the seen requests covers what it executes.
step-seen :
    (c x : ℕ) (s : Window) (k : Call)
    → IsKnown s
    → (if seen s c x then 1 else 0) + (if executes c x s k then 1 else 0)
      ≤ (if seen (step s k) c x then 1 else 0)
unfolding step executes
step-seen c x s (enters clt) known = ground (arith, enter_client-seen s clt c x)
step-seen c x s (checks clt xid rep) known = ground (
  arith,
  checkduplicate-seen s clt xid rep c x,
  checkduplicate-new s clt xid rep known,
  new_of_is_new (checkduplicate_and_update s clt xid rep).1,
)
  where
    new_of_is_new : (r : RpcState) → is_new r ≡ true → r ≡ RpcState.new
    new_of_is_new RpcState.new h = refl
    new_of_is_new RpcState.inprogress h = cc
    new_of_is_new RpcState.done h = cc
    new_of_is_new RpcState.forgotten h = cc
step-seen c x s (replies clt xid b sz) known = ground (arith, add_reply-seen s clt xid b sz c x)

executions-seen :
    (c x : ℕ) (s : Window) (ks : List Call)
    → IsKnown s
    → (if seen s c x then 1 else 0) + executions c x s ks ≤ 1
unfolding executions
executions-seen c x s [] known = ground arith
executions-seen c x s (k ∷ ks) known =
    omega
      (arith, step-seen c x s k known, executions-seen c x (step s k) ks (step-IsKnown s k known))

empty-IsKnown : IsKnown empty
unfolding empty find_reply is_forgotten lookup
empty-IsKnown c x h = cc

-- At-most-once: whatever duplicates arrive, with whatever acknowledgements, in whatever order with
-- those of other clients, the server runs the handler of a request of a client once at most.
pub executions-le-one : (c x : ℕ) (ks : List Call) → executions c x empty ks ≤ 1
executions-le-one c x ks = omega (arith, executions-seen c x empty ks empty-IsKnown)
