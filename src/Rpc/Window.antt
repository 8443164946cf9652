-- ===== src/Rpc/Window.antt =====
-- The server's memory of requests, for at-most-once execution: `rpcs::checkduplicate_and_update`,
-- `rpcs::add_reply` and `rpcs::free_reply_window` of rpc/rpc.cc. A reply buffer is a pointer; the
-- pointers given to `free` are listed.
pub mod AtMostOnce
pub mod Replies
use ds.Common.{
  ℕ, zero, suc, ◌+◌, ◌≤◌, ◌<◌, ◌≡◌, Bool, true, false, List, [], ◌∷◌, ◌++◌, Option, none, some, Map,
  insert, lookup, touch, or_else, value_or, nat_Eq, ltb, leb, nat_eq, if◌then◌else◌, ◌&&◌,
}

-- `rpcs::reply_t`; a null buffer is none.
pub record ReplyT : Type 0 where
  pub xid : ℕ
  pub cb_present : Bool
  pub buf : Option ℕ
  pub sz : ℕ

-- `reply_t::reply_t`
unfoldable pub reply_t : ℕ → ReplyT
reply_t xid = record { xid = xid; cb_present = false; buf = none; sz = 0 }

-- `rpcs::rpcstate_t`
pub data RpcState : Type 0 where
  new inprogress done forgotten : RpcState

-- `reply_window_` and `theForgottens`, and what was freed.
pub record Window : Type 0 where
  pub reply_window : Map ℕ (List ReplyT)
  pub the_forgottens : Map ℕ (List ℕ)
  pub freed : List (Option ℕ)

-- The search of the reply window for a request.
unfoldable pub find_reply : ℕ → List ReplyT → Option ReplyT
find_reply xid [] = none
find_reply xid (r ∷ l) = if nat_eq r.xid xid then some r else find_reply xid l

-- The search of the forgotten requests.
unfoldable pub is_forgotten : ℕ → List ℕ → Bool
is_forgotten xid [] = false
is_forgotten xid (x ∷ l) = if nat_eq x xid then true else is_forgotten xid l

-- The trimming loop over the window of a client: what stays, what is forgotten, what is freed.
unfoldable pub trim : ℕ → List ReplyT → List ReplyT × List ℕ × List (Option ℕ)
trim xid_rep [] = ([], [], [])
trim xid_rep (r ∷ l) =
    let (stay, gone, free) = trim xid_rep l in
    if leb r.xid xid_rep then (stay, r.xid ∷ gone, r.buf ∷ free) else (r ∷ stay, gone, free)

-- What the duplicate check finds, and the window with a new request in it.
unfoldable pub check : Window → ℕ → ℕ → RpcState × Option ReplyT × List ReplyT
check s clt xid = elim (lookup clt s.reply_window) [
  | none ↦ (RpcState.new, none, reply_t xid ∷ [])
  | some l ↦ elim (find_reply xid l) [
    | some r ↦ (RpcState.done, some r, l)
    | none ↦
        if is_forgotten xid (value_or [] clt s.the_forgottens)
        then (RpcState.forgotten, none, l)
        else (RpcState.new, none, l ++ (reply_t xid ∷ []))
  ]
]

-- `if (it's the first) theForgottens[clt] = list(); theForgottens[clt].push_back(...)` for each.
abbrev pub forget : ℕ → List ℕ → Map ℕ (List ℕ) → Map ℕ (List ℕ)
forget clt [] m = m
forget clt (x ∷ gone) m = insert clt (value_or [] clt m ++ (x ∷ gone)) m

-- `rpcs::checkduplicate_and_update`: the window afterwards, the result, and the entry whose buffer
-- and size are handed out if the result is DONE.
unfoldable pub checkduplicate_and_update : Window → ℕ → ℕ → ℕ → Window × RpcState × Option ReplyT
checkduplicate_and_update s clt xid xid_rep =
    let (result, entry, l) = check s clt xid in
    let (stay, gone, free) = trim xid_rep l in
    (
      record {
        reply_window = insert clt stay s.reply_window;
        the_forgottens = forget clt gone s.the_forgottens;
        freed = s.freed ++ free;
      },
      result,
      entry,
    )

-- The loop of `rpcs::add_reply`.
unfoldable pub set_reply : ℕ → ℕ → ℕ → List ReplyT → List ReplyT
set_reply xid b sz [] = []
set_reply xid b sz (r ∷ l) =
    if nat_eq r.xid xid then record r { buf = some b; sz = sz } ∷ l else r ∷ set_reply xid b sz l

-- `rpcs::add_reply`
unfoldable pub add_reply : Window → ℕ → ℕ → ℕ → ℕ → Window
add_reply s clt xid b sz = record s {
  reply_window = insert clt (set_reply xid b sz (value_or [] clt s.reply_window)) s.reply_window;
}

-- `rpcs::dispatch` enters a client that it sees for the first time: `reply_window_[clt_nonce]`.
unfoldable pub enter_client : Window → ℕ → Window
enter_client s clt = record s { reply_window = touch [] clt s.reply_window }

abbrev pub buffers : List ReplyT → List (Option ℕ)
buffers [] = []
buffers (r ∷ l) = r.buf ∷ buffers l

-- The buffers of all clients.
unfoldable pub all_buffers : Map ℕ (List ReplyT) → List (Option ℕ)
all_buffers [] = []
all_buffers ((clt, l) ∷ m) = buffers l ++ all_buffers m

-- `rpcs::free_reply_window`
unfoldable pub free_reply_window : Window → Window
free_reply_window s = record s { reply_window = []; freed = s.freed ++ all_buffers s.reply_window }

-- The calls on the window, as dispatch threads make them one after the other under its mutex.
pub data Call : Type 0 where
  enters : ℕ → Call
  checks : ℕ → ℕ → ℕ → Call
  replies : ℕ → ℕ → ℕ → ℕ → Call

unfoldable pub step : Window → Call → Window
step s (enters clt) = enter_client s clt
step s (checks clt xid rep) = (checkduplicate_and_update s clt xid rep).0
step s (replies clt xid b sz) = add_reply s clt xid b sz

abbrev pub is_new : RpcState → Bool
is_new RpcState.new = true
is_new RpcState.inprogress = false
is_new RpcState.done = false
is_new RpcState.forgotten = false

-- Whether the call finds this request new, so that its handler is run.
unfoldable pub executes : ℕ → ℕ → Window → Call → Bool
executes c x s (enters clt) = false
executes c x s (checks clt xid rep) =
    nat_eq clt c && nat_eq xid x && is_new (checkduplicate_and_update s clt xid rep).1
executes c x s (replies clt xid b sz) = false

-- How often a history of calls runs the handler of a request.
unfoldable pub executions : ℕ → ℕ → Window → List Call → ℕ
executions c x s [] = 0
executions c x s (k ∷ ks) = (if executes c x s k then 1 else 0) + executions c x (step s k) ks

-- A server that has seen nothing (`rpcs::rpcs`).
unfoldable pub empty : Window
empty = record { reply_window = []; the_forgottens = []; freed = [] }
