-- ===== src/Units/RoundTrip.antt =====
-- The weibar conversions of src/evm/units.rs against one another.
use hanvil.Prelude.{ℕ, ◌<◌, ◌≤◌, ◌+◌, ◌≡◌, ◌↔◌, arith}
use hanvil.Prelude.Result.{ok}
use hanvil.Word.{u64_mod}
use hanvil.Units.{to_weibar, from_weibar_exact, from_weibar_floor}

-- `from_weibar_exact` accepts a weibar amount with result `t` exactly when `t` is a u64 and the
-- amount is what `to_weibar` reports for `t`.
exact-to_weibar_iff :
    (wei t : ℕ) → (from_weibar_exact wei ≡ ok t) ↔ ((t < u64_mod) × (wei ≡ to_weibar t))
unfolding from_weibar_exact to_weibar
exact-to_weibar_iff wei t = (λ h. (ground arith, ground arith), λ h. ground (arith, h.0, h.1))

-- `from_weibar_floor` accepts with result `t` exactly when `t` is a u64 and the amount lies from
-- `to_weibar t` up to, not including, `to_weibar (t + 1)`.
pub floor-to_weibar_iff :
    (wei t : ℕ)
    → (from_weibar_floor wei ≡ ok t)
      ↔ ((t < u64_mod) × (to_weibar t ≤ wei) × (wei < to_weibar (t + 1)))
unfolding from_weibar_floor to_weibar
floor-to_weibar_iff wei t =
    (λ h. (ground arith, ground arith, ground arith), λ h. ground (arith, h.0, h.1, h.2))
