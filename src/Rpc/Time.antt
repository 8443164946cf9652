-- ===== src/Rpc/Time.antt =====
-- The times of the RPC client (rpc.cc): seconds and nanoseconds.
use ds.Common.{
  ℕ, zero, suc, ◌+◌, ◌-◌, ◌*◌, ◌/◌, ◌%◌, ◌≤◌, ◌<◌, ◌≡◌, refl, ap, ◌∙◌, if◌then◌else◌, ltb, arith,
}

-- `struct timespec`
pub record Timespec : Type 0 where
  pub tv_sec : ℕ
  pub tv_nsec : ℕ

-- What `cmp_timespec` returns.
pub data Cmp : Type 0 where
  less equal greater : Cmp

-- `cmp_timespec`
unfoldable pub cmp_timespec : Timespec → Timespec → Cmp
cmp_timespec a b =
    if ltb b.tv_sec a.tv_sec
    then greater
    else if ltb a.tv_sec b.tv_sec
    then less
    else if ltb b.tv_nsec a.tv_nsec
    then greater
    else if ltb a.tv_nsec b.tv_nsec
    then less
    else equal

-- The loop of `add_timespec`, with fuel.
unfoldable pub carry : ℕ → Timespec → Timespec
carry zero t = t
carry (suc f) t =
    let rest = carry f (record { tv_sec = t.tv_sec + 1; tv_nsec = t.tv_nsec - 1000000000 }) in
    if ltb 1000000000 t.tv_nsec then rest else t

-- `add_timespec` of milliseconds; each round takes more than one nanosecond away. The code's time-outs
-- are not negative, so that `VERIFY(tv_nsec >= 0)` holds.
unfoldable pub add_timespec : Timespec → ℕ → Timespec
unfolding carry
add_timespec a b =
    let nsec = a.tv_nsec + b % 1000 * 1000000 in
    carry (suc nsec) (record { tv_sec = a.tv_sec + b / 1000; tv_nsec = nsec })

-- A time in nanoseconds.
abbrev pub nanoseconds : Timespec → ℕ
nanoseconds t = t.tv_sec * 1000000000 + t.tv_nsec

carry-nanoseconds : (f : ℕ) (t : Timespec) → nanoseconds (carry f t) ≡ nanoseconds t
unfolding carry
carry-nanoseconds zero t = refl
carry-nanoseconds (suc f) t = ground (
  arith,
  carry-nanoseconds f (record { tv_sec = t.tv_sec + 1; tv_nsec = t.tv_nsec - 1000000000 }),
)

carry-le : (f : ℕ) (t : Timespec) → t.tv_nsec < f → (carry f t).tv_nsec ≤ 1000000000
unfolding carry
carry-le zero t h = elim h [ ]
carry-le (suc f) t h =
    ground (arith, carry-le f (record { tv_sec = t.tv_sec + 1; tv_nsec = t.tv_nsec - 1000000000 }))

-- A time-out is added exactly, the loop ends, and at most 10^9 nanoseconds are left beside the seconds.
pub add_timespec_lem :
    (a : Timespec) (b : ℕ)
    → (nanoseconds (add_timespec a b) ≡ nanoseconds a + b * 1000000)
      × ((add_timespec a b).tv_nsec ≤ 1000000000)
unfolding add_timespec
add_timespec_lem a b =
    let nsec = a.tv_nsec + b % 1000 * 1000000 in
    let t : Timespec = record { tv_sec = a.tv_sec + b / 1000; tv_nsec = nsec } in
    (carry-nanoseconds (suc nsec) t ∙ omega arith, carry-le (suc nsec) t (omega arith))

carry_stop : (f : ℕ) (t : Timespec) → t.tv_nsec ≤ 1000000000 → carry (suc f) t ≡ t
unfolding carry
carry_stop f t h = ground arith

-- 10^9 nanoseconds are not carried, though `struct timespec` has fewer than that.
pub add_timespec_full :
    (a : Timespec) (b : ℕ)
    → a.tv_nsec + b % 1000 * 1000000 ≡ 1000000000
    → (add_timespec a b).tv_nsec ≡ 1000000000
unfolding add_timespec
add_timespec_full a b h =
    let nsec = a.tv_nsec + b % 1000 * 1000000 in
    let t : Timespec = record { tv_sec = a.tv_sec + b / 1000; tv_nsec = nsec } in
    ap (λ (u : Timespec). u.tv_nsec) (carry_stop nsec t (omega (arith, h))) ∙ h

-- The comparison is that of the nanoseconds, for times with fewer than 10^9 beside the seconds.
pub cmp_timespec_lem :
    (a b : Timespec)
    → a.tv_nsec < 1000000000
    → b.tv_nsec < 1000000000
    → cmp_timespec a b ≡ (
        if ltb (nanoseconds b) (nanoseconds a)
        then greater
        else if ltb (nanoseconds a) (nanoseconds b)
        then less
        else equal)
unfolding cmp_timespec
cmp_timespec_lem a b h k = ground arith
