-- ===== src/Word.antt =====
-- The machine integers of the source. A `u64` is a number below 2^64 and an `i64` an integer of
-- that width; the release profile has no overflow checks, so plain arithmetic wraps.
use hanvil.Prelude.{
  ℕ, zero, suc, ◌/◌, List, [], ◌∷◌, ◌+◌, ◌-◌, ◌*◌, ◌%◌, ◌^◌, ◌≤◌, ◌<◌, ◌≡◌, arith, ltb,
  if◌then◌else◌, ℤ, pos, negsuc, pos_part, neg_part, sub_ℕ, ◌+ℤ◌,
}

abbrev pub u64_mod : ℕ
u64_mod = 2 ^ 64

abbrev pub u64_max : ℕ
u64_max = 2 ^ 64 - 1

abbrev pub i64_mod : ℕ
i64_mod = 2 ^ 63

-- `a + b` on u64
unfoldable pub add_u64 : ℕ → ℕ → ℕ
add_u64 a b = (a + b) % u64_mod

-- `u64::saturating_add`
unfoldable pub saturating_add : ℕ → ℕ → ℕ
saturating_add a b = if ltb u64_max (a + b) then u64_max else a + b

-- `u64::saturating_sub`: the truncated subtraction of ℕ
abbrev pub saturating_sub : ℕ → ℕ → ℕ
saturating_sub a b = a - b

-- `x as i64` for a u64 `x`
unfoldable pub to_i64 : ℕ → ℤ
to_i64 x = if ltb x i64_mod then pos x else negsuc (u64_mod - 1 - x)

-- `-x` on i64; the least value has no opposite and wraps to itself
unfoldable pub neg_i64 : ℤ → ℤ
neg_i64 (pos n) = if ltb 0 n then negsuc (n - 1) else pos 0
neg_i64 (negsuc n) = if ltb (n + 1) i64_mod then pos (n + 1) else negsuc n

-- an integer modulo 2^64, read as an i64
unfoldable pub wrap_i64 : ℤ → ℤ
unfolding to_i64
wrap_i64 (pos n) = to_i64 (n % u64_mod)
wrap_i64 (negsuc n) = to_i64 (u64_mod - 1 - n % u64_mod)

-- `a + b` on i64
unfoldable pub add_i64 : ℤ → ℤ → ℤ
unfolding wrap_i64 ◌+ℤ◌
add_i64 a b = wrap_i64 (a +ℤ b)

-- `a - b` on i64
unfoldable pub sub_i64 : ℤ → ℤ → ℤ
unfolding wrap_i64 ◌+ℤ◌
sub_i64 a b = wrap_i64 (sub_ℕ (pos_part a + neg_part b) (neg_part a + pos_part b))

-- `i64::saturating_add`
unfoldable pub saturating_add_i64 : ℤ → ℤ → ℤ
unfolding ◌+ℤ◌
saturating_add_i64 a b =
    if ltb (i64_mod - 1) (pos_part (a +ℤ b))
    then pos (i64_mod - 1)
    else if ltb i64_mod (neg_part (a +ℤ b))
    then negsuc (i64_mod - 1)
    else a +ℤ b

-- `u64::saturating_add_signed`
unfoldable pub saturating_add_signed : ℕ → ℤ → ℕ
unfolding saturating_add
saturating_add_signed a (pos n) = saturating_add a n
saturating_add_signed a (negsuc n) = saturating_sub a (suc n)

-- `u64::saturating_mul`
unfoldable pub saturating_mul : ℕ → ℕ → ℕ
saturating_mul a b = if ltb u64_max (a * b) then u64_max else a * b

-- `i64::unsigned_abs`
abbrev pub unsigned_abs : ℤ → ℕ
unsigned_abs a = pos_part a + neg_part a

-- Within the range of an i64 the sum does not wrap.
abbrev pub InI64 : ℤ → Type 0
InI64 a = (pos_part a < i64_mod) × (neg_part a ≤ i64_mod)

pub add_i64_in_range : (a b : ℤ) → InI64 (a +ℤ b) → add_i64 a b ≡ a +ℤ b
unfolding add_i64 wrap_i64 ◌+ℤ◌
add_i64_in_range a b h = ground arith

pub saturating_add_exact : (a b : ℕ) → a + b < u64_mod → saturating_add a b ≡ a + b
unfolding saturating_add
saturating_add_exact a b h = ground arith

pub to_i64_small : (x : ℕ) → x < i64_mod → to_i64 x ≡ pos x
unfolding to_i64
to_i64_small x h = ground arith

pub neg_i64_pos : (n : ℕ) → 0 < n → neg_i64 (pos n) ≡ negsuc (n - 1)
unfolding neg_i64
neg_i64_pos n h = ground arith

-- The decimal digits of a number, for as many digits as the fuel allows; a u64 has at most 20.
unfoldable pub digits : ℕ → ℕ → List ℕ → List ℕ
digits zero n shown = shown
digits (suc fuel) n shown =
    let rest = digits fuel (n / 10) ((48 + n % 10) ∷ shown) in
    if ltb n 10 then (48 + n) ∷ shown else rest

-- `{}` of a u64
unfoldable pub decimal : ℕ → List ℕ
unfolding digits
decimal n = digits 20 n []

abbrev pub hex_digit : ℕ → ℕ
hex_digit d = if ltb d 10 then 48 + d else 87 + d

abbrev pub hex_digits : ℕ → ℕ → List ℕ → List ℕ
hex_digits zero n shown = shown
hex_digits (suc fuel) n shown =
    let rest = hex_digits fuel (n / 16) (hex_digit (n % 16) ∷ shown) in
    if ltb n 16 then hex_digit n ∷ shown else rest

-- `{:#x}` of a U256, which has at most 64 digits
unfoldable pub hex : ℕ → List ℕ
hex n = 48 ∷ 120 ∷ hex_digits 64 n []
