-- ===== src/Rpc/Params/RoundTrip.antt =====
-- Quantities are read back from their text.
use hanvil.Prelude.{
  ℕ, zero, suc, ◌+◌, ◌-◌, ◌*◌, ◌/◌, ◌%◌, ◌^◌, ◌≤◌, ◌<◌, ◌≡◌, ◌∙◌, ap, arith, ltb, some, [], ◌∷◌,
  Bytes, length, All, ◌⊎◌, inl, inr, Bool-cases, if◌then◌else◌,
}
use hanvil.Prelude.Result.{ok}
use hanvil.Word.{hex_digit, hex_digits, u64_mod}
use hanvil.Rpc.{string, Formats, lower_hex, quantity, quantity_u64}
use hanvil.Rpc.Params.{parse_quantity, parse_u64}

-- A digit from 0 to 9 or from a to f, and what it stands for.
abbrev pub IsHexDigit : ℕ → Type 0
IsHexDigit c = ((48 ≤ c) × (c ≤ 57)) ⊎ ((97 ≤ c) × (c ≤ 102))

abbrev pub hex_value : ℕ → ℕ
hex_value c = if ltb c 58 then c - 48 else c - 87

-- The number that a text of such digits writes, behind the number read so far.
abbrev pub read_hex : ℕ → Bytes → ℕ
read_hex acc [] = acc
read_hex acc (c ∷ cs) = read_hex (acc * 16 + hex_value c) cs

-- What ruint documents of `from_str_radix` at 16, on lower-case digits: it reads a number of 256
-- bits that is written with one digit at least.
abbrev pub ReadsHex : Formats → Type 0
ReadsHex formats =
    (text : Bytes)
    → 1 ≤ length text
    → All IsHexDigit text
    → read_hex 0 text < 2 ^ 256
    → formats.from_str_radix_16 text ≡ some (read_hex 0 text)

-- Sixteen to the power of the number of digits.
bound : ℕ → ℕ
bound zero = 1
bound (suc fuel) = 16 * bound fuel

hex_value-hex_digit : (d : ℕ) → d < 16 → hex_value (hex_digit d) ≡ d
hex_value-hex_digit d h = ground arith

hex_digit-IsHexDigit : (d : ℕ) → d < 16 → IsHexDigit (hex_digit d)
hex_digit-IsHexDigit d h = elim (Bool-cases (ltb d 10)) [
  | inl low ↦ inl (ground arith)
  | inr high ↦ inr (ground arith)
]

read_hex-digits :
    (fuel n : ℕ) (shown : Bytes)
    → n < bound fuel
    → read_hex 0 (hex_digits fuel n shown) ≡ read_hex n shown
unfolding bound
read_hex-digits zero n shown h = ap (λ k. read_hex k shown) (omega arith)
read_hex-digits (suc fuel) n shown h = elim (Bool-cases (ltb n 16)) [
  | inl one ↦
      rw one (ap (λ k. read_hex k shown) (omega (arith, hex_value-hex_digit n (ground arith))))
  | inr more ↦ rw more (
      read_hex-digits fuel (n / 16) (hex_digit (n % 16) ∷ shown) (omega (arith, h))
      ∙ ap (λ k. read_hex k shown) (omega (arith, hex_value-hex_digit (n % 16) (omega arith))))
]

digits-IsHexDigit :
    (fuel n : ℕ) (shown : Bytes) → All IsHexDigit shown → All IsHexDigit (hex_digits fuel n shown)
digits-IsHexDigit zero n shown a = a
digits-IsHexDigit (suc fuel) n shown a = elim (Bool-cases (ltb n 16)) [
  | inl one ↦ rw one (hex_digit-IsHexDigit n (ground arith), a)
  | inr more ↦ rw more (
      digits-IsHexDigit fuel (n / 16) (hex_digit (n % 16) ∷ shown)
        (hex_digit-IsHexDigit (n % 16) (omega arith), a))
]

length-digits : (fuel n : ℕ) (shown : Bytes) → length shown ≤ length (hex_digits fuel n shown)
length-digits zero n shown = omega arith
length-digits (suc fuel) n shown =
    ground (arith, length-digits fuel (n / 16) (hex_digit (n % 16) ∷ shown))

some_digit : (fuel n : ℕ) → 1 ≤ length (hex_digits (suc fuel) n [])
some_digit fuel n = ground (arith, length-digits fuel (n / 16) (hex_digit (n % 16) ∷ []))

read_quantity : (n : ℕ) → n < 2 ^ 256 → read_hex 0 (lower_hex n) ≡ n
read_quantity n small = read_hex-digits 64 n [] (unfold bound in omega arith)

-- Where the parser reads lower-case hexadecimal digits as numbers: a number of 256 bits, written as
-- a quantity, is read back as that number.
pub parse_quantity-quantity :
    (formats : Formats) (n : ℕ) (name : Bytes)
    → ReadsHex formats
    → n < 2 ^ 256
    → parse_quantity formats (some (string (quantity n))) name ≡ ok n
unfolding parse_quantity quantity
parse_quantity-quantity formats n name reads small =
    let found =
      reads (lower_hex n) (some_digit 63 n) (digits-IsHexDigit 64 n [] tt)
        (omega (arith, read_quantity n small)) in
    rw found (ap ok (read_quantity n small))

-- The same for a u64.
pub parse_u64-quantity_u64 :
    (formats : Formats) (n : ℕ) (name : Bytes)
    → ReadsHex formats
    → n < u64_mod
    → parse_u64 formats (some (string (quantity_u64 n))) name ≡ ok n
unfolding parse_u64 quantity_u64
parse_u64-quantity_u64 formats n name reads small =
    rw (parse_quantity-quantity formats n name reads (omega arith)) (ground arith)
