-- ===== src/Config/Epoch.antt =====
-- Epoch numbers and states of the leader election (config.h) and their comparisons: `epochLess`,
-- `epochLessOrEqual`, `stateLess`, `stateLessOrEqual` and `maxState` of config.cc.
use ds.Common.{
  ℕ, ◌≡◌, ◌⊎◌, Bool, true, false, ◌&&◌, ◌||◌, arith, ltb, leb, nat_eq, Bytes, ◌==◌, bytes_Eq,
  bytes_lt, bytes_le, bytes_lt_irrefl, bytes_lt_trans, bytes_lt_total, if◌then◌else◌,
}

-- `config::epochNum`
pub record EpochNum : Type 0 where
  pub serial_num : ℕ
  pub id : Bytes

-- `config::epochState`
pub record EpochState : Type 0 where
  pub en : EpochNum
  pub freshness : ℕ

-- `config::epochView`
pub record EpochView : Type 0 where
  pub state : EpochState
  pub expired : Bool

-- `config::epochLess`
unfoldable pub epoch_less : EpochNum → EpochNum → Bool
epoch_less a b =
    ltb a.serial_num b.serial_num || (nat_eq a.serial_num b.serial_num && bytes_lt a.id b.id)

-- `config::epochLessOrEqual`
unfoldable pub epoch_less_or_equal : EpochNum → EpochNum → Bool
epoch_less_or_equal a b =
    leb a.serial_num b.serial_num || (nat_eq a.serial_num b.serial_num && bytes_le a.id b.id)

-- `config::stateLess`
unfoldable pub state_less : EpochState → EpochState → Bool
state_less a b =
    ltb a.en.serial_num b.en.serial_num
    || (nat_eq a.en.serial_num b.en.serial_num && bytes_lt a.en.id b.en.id)
    || (nat_eq a.en.serial_num b.en.serial_num
        && (a.en.id == b.en.id)
        && ltb a.freshness b.freshness)

-- `config::stateLessOrEqual`
unfoldable pub state_less_or_equal : EpochState → EpochState → Bool
state_less_or_equal a b =
    leb a.en.serial_num b.en.serial_num
    || (nat_eq a.en.serial_num b.en.serial_num && bytes_le a.en.id b.en.id)
    || (nat_eq a.en.serial_num b.en.serial_num
        && (a.en.id == b.en.id)
        && leb a.freshness b.freshness)

-- `config::maxState`
unfoldable pub max_state : EpochState → EpochState → EpochState
max_state a b = if state_less a b then b else a

pub state_less_irrefl : (a : EpochState) → state_less a a ≡ false
unfolding state_less
state_less_irrefl a = ground (arith, bytes_lt_irrefl a.en.id)

pub state_less_trans :
    (a b c : EpochState) → state_less a b ≡ true → state_less b c ≡ true → state_less a c ≡ true
unfolding state_less
state_less_trans a b c h k = ground (
  arith,
  bytes_lt_trans a.en.id b.en.id c.en.id,
  bytes_Eq.beq_iff a.en.id b.en.id,
  bytes_Eq.beq_iff b.en.id c.en.id,
  bytes_Eq.beq_iff a.en.id c.en.id,
)

pub state_less_total :
    (a b : EpochState) → (state_less a b ≡ true) ⊎ (a ≡ b) ⊎ (state_less b a ≡ true)
unfolding state_less
state_less_total a b = ground (
  arith,
  bytes_lt_total a.en.id b.en.id,
  bytes_Eq.beq_iff a.en.id b.en.id,
  bytes_Eq.beq_iff b.en.id a.en.id,
)

-- The larger of two states is one of them, the same in either order, and neither of them is above
-- it; a state is above it exactly where it is above both.
pub max_state-lub :
    (a b c : EpochState)
    → (state_less (max_state a b) a ≡ false)
      × (state_less (max_state a b) b ≡ false)
      × ((max_state a b ≡ a) ⊎ (max_state a b ≡ b))
      × (max_state a b ≡ max_state b a)
      × (state_less (max_state a b) c ≡ (state_less a c && state_less b c))
unfolding max_state
max_state-lub a b c = (
  ground (arith, state_less_irrefl a, state_less_trans a b a),
  ground (arith, state_less_irrefl b, state_less_total a b),
  ground arith,
  ground (arith, state_less_total a b, state_less_trans a b a, state_less_irrefl a),
  ground (arith, state_less_total a b, state_less_trans a b c, state_less_trans b a c),
)

-- `stateLessOrEqual` looks at the serial numbers alone: it is true of any two states with the same
-- serial number, in both orders, although one of them may be less than the other.
pub state_less_or_equal_serial :
    (a b : EpochState) → state_less_or_equal a b ≡ leb a.en.serial_num b.en.serial_num
unfolding state_less_or_equal
state_less_or_equal_serial a b = ground arith

pub epoch_less_or_equal_serial :
    (a b : EpochNum) → epoch_less_or_equal a b ≡ leb a.serial_num b.serial_num
unfolding epoch_less_or_equal
epoch_less_or_equal_serial a b = ground arith
