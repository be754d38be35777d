-- ===== src/Rpc.antt =====
-- src/rpc/types.rs: JSON values and the texts of quantities, hashes and bytes. The parsers of alloy
-- and hex are parameters.
pub mod Errors
pub mod Params
pub mod Objects
pub mod Eth
pub mod Cheats
pub mod Dispatch
use hanvil.Prelude.{
  ℕ, zero, suc, ◌*◌, ◌/◌, ◌%◌, ℤ, Bool, Option, none, some, List, [], ◌∷◌, Bytes, if◌then◌else◌,
}
use hanvil.Word.{hex_digit, hex_digits}
use hanvil.Units.{Tinybar, Address, weibar_per_tinybar, to_weibar}
use hanvil.Keys.{KeyError}
use hanvil.Blocks.{B256}
use hanvil.Evm.{Envelope}
use hanvil.Text.{same_text}

-- serde_json's `Value`. A `number` is one that fits a u64 or an i64; any other is kept as its text.
mutual
  pub data Value : Type 0 where
    null : Value
    bool : Bool → Value
    number : ℤ → Value
    other_number : Bytes → Value
    string : Bytes → Value
    array : Values → Value
    object : Fields → Value

  pub data Values : Type 0 where
    nil : Values
    cons : Value → Values → Values

  pub data Fields : Type 0 where
    end : Fields
    field : Bytes → Value → Fields → Fields

abbrev pub values : List Value → Values
values [] = nil
values (v ∷ vs) = cons v (values vs)

abbrev pub items : Values → List Value
items nil = []
items (cons v vs) = v ∷ items vs

abbrev pub fields : List (Bytes × Value) → Fields
fields [] = end
fields ((name, v) ∷ rest) = field name v (fields rest)

-- `map.get(name)`
abbrev pub find : Bytes → Fields → Option Value
find name end = none
find name (field key v rest) = if same_text key name then some v else find name rest

-- `value.get(name)`: none for what is no object.
abbrev pub member : Bytes → Value → Option Value
member name (object fs) = find name fs
member name v = none

abbrev pub as_text : Value → Option Bytes
as_text (string text) = some text
as_text v = none

-- What the program takes from alloy, hex and the float type.
pub record Formats : Type 0 where
  pub display_address : Address → Bytes
  pub parse_address_text : Bytes → Option Address
  pub parse_hash_text : Bytes → Option B256
  pub from_str_radix_16 : Bytes → Option ℕ
  pub hex_decode : Bytes → Option Bytes
  pub key_error_text : KeyError → Bytes
  pub value_text : Value → Bytes
  pub from_utf8_lossy : Bytes → Bytes
  pub ratio : ℕ → ℕ → Value
  -- The signature's r, s and parity, and the entries of the access list.
  pub signature_of : Envelope → ℕ × ℕ × ℕ
  pub access_entries : Envelope → List (Address × List B256)

-- `{:x}` of a U256, which has at most 64 digits
abbrev pub lower_hex : ℕ → Bytes
lower_hex n = hex_digits 64 n []

-- `{:#x}` of a number of fixed width: every digit is shown.
abbrev pub fixed_digits : ℕ → ℕ → Bytes → Bytes
fixed_digits zero n shown = shown
fixed_digits (suc width) n shown = fixed_digits width (n / 16) (hex_digit (n % 16) ∷ shown)

unfoldable pub quantity : ℕ → Bytes
quantity value = 48 ∷ 120 ∷ lower_hex value

unfoldable pub quantity_u64 : ℕ → Bytes
unfolding quantity
quantity_u64 value = quantity value

unfoldable pub weibar : Tinybar → Bytes
unfolding quantity to_weibar
weibar amount = quantity (to_weibar amount)

unfoldable pub weibar_u64 : ℕ → Bytes
unfolding quantity
weibar_u64 tinybar = quantity (tinybar * weibar_per_tinybar)

-- `hex::encode`: two digits for each byte.
abbrev pub encode : Bytes → Bytes
encode [] = []
encode (b ∷ bs) = hex_digit (b / 16) ∷ hex_digit (b % 16) ∷ encode bs

unfoldable pub hex_data : Bytes → Bytes
hex_data bytes = 48 ∷ 120 ∷ encode bytes

unfoldable pub hash : B256 → Bytes
hash value = 48 ∷ 120 ∷ fixed_digits 64 value []

unfoldable pub address : Address → Bytes
address value = 48 ∷ 120 ∷ fixed_digits 40 value []
