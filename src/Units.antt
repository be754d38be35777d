-- ===== src/Units.antt =====
-- src/evm/units.rs: tinybar amounts and address forms. A U256 is a number below 2^256, and an
-- address is the number that its 20 bytes write big-endian.
pub mod RoundTrip
use hanvil.Prelude.{ℕ, ◌*◌, ◌/◌, ◌%◌, Bool, true, false, arith, ltb, ◌==◌, if◌then◌else◌}
use hanvil.Prelude.Result.{Result, ok, err}
use hanvil.Word.{u64_mod, u64_max, saturating_mul}

abbrev pub Tinybar : Type 0
Tinybar = ℕ

abbrev pub Address : Type 0
Address = ℕ

abbrev pub tinybar_per_hbar : ℕ
tinybar_per_hbar = 100_000_000

abbrev pub weibar_per_tinybar : ℕ
weibar_per_tinybar = 10_000_000_000

pub data UnitError : Type 0 where
  not_whole too_large : ℕ → UnitError

-- `saturating_mul`
unfoldable pub from_hbar : ℕ → Tinybar
unfolding saturating_mul
from_hbar hbar = if ltb u64_max (hbar * tinybar_per_hbar) then u64_max else hbar * tinybar_per_hbar

-- A u64 times 10^10 fits a U256.
unfoldable pub to_weibar : Tinybar → ℕ
to_weibar t = t * weibar_per_tinybar

unfoldable pub from_weibar_exact : ℕ → Result UnitError Tinybar
from_weibar_exact wei =
    if wei % weibar_per_tinybar == 0
    then (if ltb (wei / weibar_per_tinybar) u64_mod
        then ok (wei / weibar_per_tinybar)
        else err (too_large wei))
    else err (not_whole wei)

unfoldable pub from_weibar_floor : ℕ → Result UnitError Tinybar
from_weibar_floor wei =
    if ltb (wei / weibar_per_tinybar) u64_mod
    then ok (wei / weibar_per_tinybar)
    else err (too_large wei)

abbrev pub to_evm : Tinybar → ℕ
to_evm t = t

unfoldable pub from_evm : ℕ → Tinybar
from_evm value = if ltb value u64_mod then value else u64_max

-- The first twelve bytes are zero and the last eight are the id, so the number is the id.
unfoldable pub long_zero_address : ℕ → Address
long_zero_address id = id
