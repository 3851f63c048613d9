-- ===== src/StoreTimestamp.antt =====
-- src/httk/store/store_timestamp.py: store-managed timestamps and their high-water mark.
pub mod Monotone
mod Tests
use httk_store.Prelude.{
  ℕ, suc, ◌+◌, ◌*◌, ◌-◌, ◌/◌, Bool, true, false, Option, none, some, List, [], ◌∷◌, if◌then◌else◌,
  ltb, not, ◌&&◌, Result, ok, err, max,
}

-- `_CLOCK_REGRESSION_GRACE_NS`
abbrev pub clock_regression_grace_ns : ℕ
clock_regression_grace_ns = 1000000

-- StoreClockRegressionError, with its two numbers.
pub data ClockRegression : Type 0 where
  regressed : (mark_ns clock_ns : ℕ) → ClockRegression

-- What the clock reads when it is called, and what it reads once more after a sleep.
pub record Readings : Type 0 where
  pub first : ℕ
  pub later : ℕ

-- The last test of `capture_store_timestamp`, on the reading that counts.
unfoldable pub accept : ℕ → ℕ → ℕ → Result ClockRegression ℕ
accept resolution mark clock_ns =
    if ltb (clock_ns / resolution) mark
    then err (regressed (mark * resolution) clock_ns)
    else ok (clock_ns / resolution)

-- The branch for a mark that the first reading is below.
unfoldable pub retry : Bool → ℕ → ℕ → Readings → Result ClockRegression ℕ
unfolding accept
retry grace resolution mark c =
    if grace && ltb (mark * resolution - c.first) clock_regression_grace_ns
    then accept resolution mark c.later
    else accept resolution mark c.first

-- The guarded branch, by the mark.
unfoldable pub guarded : Bool → ℕ → Option ℕ → Readings → Result ClockRegression ℕ
unfolding retry
guarded grace resolution none c = ok (c.first / resolution)
guarded grace resolution (some mark) c =
    if ltb (c.first / resolution) mark
    then retry grace resolution mark c
    else ok (c.first / resolution)

-- `capture_store_timestamp`; the arguments are the two flags, the resolution and the mark.
unfoldable pub capture_store_timestamp :
    Bool → Bool → ℕ → Option ℕ → Readings → Result ClockRegression ℕ
unfolding guarded
capture_store_timestamp allow_clock_regression grace resolution mark c =
    if allow_clock_regression then ok (c.first / resolution) else guarded grace resolution mark c

-- `advance_store_timestamp_mark`
unfoldable pub raised : Option ℕ → ℕ → Option ℕ
raised none captured = some captured
raised (some mark) captured = some (max mark captured)

unfoldable pub advance_store_timestamp_mark : Bool → Option ℕ → Option ℕ → Option ℕ
unfolding raised
advance_store_timestamp_mark allow_clock_regression mark none = mark
advance_store_timestamp_mark allow_clock_regression mark (some captured) =
    if allow_clock_regression then mark else raised mark captured
