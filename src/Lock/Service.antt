-- ===== src/Lock/Service.antt =====
-- What a lock server offers (lock_protocol.h), and what its clients may conclude from it.
use ds.Common.{
  ℕ, ◌+◌, ◌≡◌, ◌≢◌, refl, Bool, true, false, List, [], ◌∷◌, nat_eq, nat_Eq, if◌then◌else◌, arith,
}

-- A server with states S whose requests are of type R, behind the lock that they are about.
-- An acquire says whether it grants the lock.
pub record LockService (S R : Type 0) : Type 0 where
  pub acquire : S → ℕ → R → S × Bool
  pub release : S → ℕ → R → S
  pub locked : S → ℕ → Bool
  pub acquire-granted :
      (s : S) (lid : ℕ) (r : R)
      → (acquire s lid r).1 ≡ true
      → (locked s lid ≡ false) × (locked (acquire s lid r).0 lid ≡ true)
  pub acquire-refused :
      (s : S) (lid : ℕ) (r : R)
      → (acquire s lid r).1 ≡ false
      → locked (acquire s lid r).0 lid ≡ locked s lid
  pub acquire-other :
      (s : S) (lid k : ℕ) (r : R) → lid ≢ k → locked (acquire s lid r).0 k ≡ locked s k
  pub release-self : (s : S) (lid : ℕ) (r : R) → locked (release s lid r) lid ≡ false
  pub release-other :
      (s : S) (lid k : ℕ) (r : R) → lid ≢ k → locked (release s lid r) k ≡ locked s k

-- A call of a server.
pub data LockCall (R : Type 0) : Type 0 where
  acquire : ℕ → R → LockCall R
  release : ℕ → R → LockCall R

abbrev pub one_if : Bool → ℕ
one_if b = if b then 1 else 0

module _ {S R : Type 0} (service : LockService S R) where
  -- The state after a call.
  unfoldable pub call : S → LockCall R → S
  call s (LockCall.acquire lid r) = (service.acquire s lid r).0
  call s (LockCall.release lid r) = service.release s lid r

  unfoldable pub calls : S → List (LockCall R) → S
  calls s [] = s
  calls s (c ∷ cs) = calls (call s c) cs

  -- Whether a call grants the lock, and whether it frees the lock.
  unfoldable pub grant : ℕ → S → LockCall R → Bool
  grant k s (LockCall.acquire lid r) = if nat_eq lid k then (service.acquire s lid r).1 else false
  grant k s (LockCall.release lid r) = false

  unfoldable pub frees : ℕ → S → LockCall R → Bool
  frees k s (LockCall.acquire lid r) = false
  frees k s (LockCall.release lid r) = if nat_eq lid k then service.locked s k else false

  -- How many of the calls grant the lock, and how many free it.
  unfoldable pub grants : ℕ → S → List (LockCall R) → ℕ
  grants k s [] = 0
  grants k s (c ∷ cs) = one_if (grant k s c) + grants k (call s c) cs

  unfoldable pub freed : ℕ → S → List (LockCall R) → ℕ
  freed k s [] = 0
  freed k s (c ∷ cs) = one_if (frees k s c) + freed k (call s c) cs

  call_balance :
      (k : ℕ) (s : S) (c : LockCall R)
      → one_if (grant k s c) + one_if (service.locked s k)
        ≡ one_if (frees k s c) + one_if (service.locked (call s c) k)
  unfolding grant frees call
  call_balance k s (LockCall.acquire lid r) = ground (
    arith,
    nat_Eq.beq_iff lid k,
    service.acquire-granted s lid r,
    service.acquire-refused s lid r,
    service.acquire-other s lid k r,
  )
  call_balance k s (LockCall.release lid r) =
      ground
        (arith, nat_Eq.beq_iff lid k, service.release-self s lid r, service.release-other s lid k r)

  -- The grants of a lock and its frees balance, up to the lock being held before and after.
  pub grants_balance :
      (k : ℕ) (cs : List (LockCall R)) (s : S)
      → grants k s cs + one_if (service.locked s k)
        ≡ freed k s cs + one_if (service.locked (calls s cs) k)
  unfolding grants freed calls
  grants_balance k [] s = refl
  grants_balance k (c ∷ cs) s = ground (arith, call_balance k s c, grants_balance k cs (call s c))
