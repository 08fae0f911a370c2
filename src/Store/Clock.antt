-- ===== src/Store/Clock.antt =====
-- Instants and their texts, and `retry_time` of src/notification.rs. `chrono` is a parameter.
use Prim.Native.String.{compare}
use text.Mathlib.Text.{is_le}
use beacon_alerts.Prelude.{
  ℕ, ◌-◌, ◌*◌, ◌^◌, String, Bool, Option, none, some, min, leb, if◌then◌else◌,
}
use beacon_alerts.Store.Alerts.{i64_max}

-- a signed 64-bit number: `negative n` is -(n + 1)
pub data Int64 : Type 0 where
  natural : ℕ → Int64
  negative : ℕ → Int64

-- What the code asks of `chrono`. Adding seconds is `none` where `Duration::seconds` or the
-- addition panics.
pub record Chrono (T : Type 0) : Type 0 where
  pub to_rfc3339 : T → String
  pub minutes_before : T → ℕ → T
  pub add_seconds : T → Int64 → Option T

-- the comparison of TEXT columns
abbrev pub text_le : String → String → Bool
text_le s t = is_le (compare s t)

abbrev pub u64_max : ℕ
u64_max = 18446744073709551615

-- `u64::saturating_mul`
abbrev pub saturating_mul : ℕ → ℕ → ℕ
saturating_mul a b = min (a * b) u64_max

-- `as i64`
abbrev pub as_i64 : ℕ → Int64
as_i64 n = if leb n i64_max then natural n else negative (u64_max - n)

-- The delay before the next attempt, in seconds. The power is at most 2^10, so it fits.
unfoldable pub retry_delay : ℕ → ℕ → ℕ
retry_delay attempts base_seconds = saturating_mul base_seconds (2 ^ min (attempts - 1) 10)

unfoldable pub retry_time : {T : Type 0} → Chrono T → T → ℕ → ℕ → Option String
unfolding retry_delay
retry_time ch now attempts base_seconds =
    elim (ch.add_seconds now (as_i64 (retry_delay attempts base_seconds))) [
      | none ↦ none
      | some time ↦ some (ch.to_rfc3339 time)
    ]
