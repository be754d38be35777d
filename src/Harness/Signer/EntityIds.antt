-- ===== src/Harness/Signer/EntityIds.antt =====
-- Entity ids are read back from their text.
use hanvil.Prelude.{
  ℕ, zero, suc, ◌+◌, ◌-◌, ◌*◌, ◌/◌, ◌%◌, ◌≤◌, ◌<◌, ◌≡◌, refl, ◌∙◌, ap, arith, some, [], ◌∷◌, ◌++◌,
  Bytes, codes, length, ltb, All, Bool-cases, inl, inr,
}
use hanvil.Word.{digits, u64_mod}
use hanvil.Accounts.{EntityId, entity_text}
use hanvil.Harness.Signer.{split_dots, read_digits, read_u64, entity_of_parts, parse_entity_id}

-- Ten to the power of the number of digits.
bound : ℕ → ℕ
bound zero = 1
bound (suc fuel) = 10 * bound fuel

abbrev pub IsDigit : ℕ → Type 0
IsDigit c = (48 ≤ c) × (c ≤ 57)

pub read_digit :
    (n d : ℕ) (cs : Bytes)
    → d < 10
    → n * 10 + d < u64_mod
    → read_digits n ((48 + d) ∷ cs) ≡ read_digits (n * 10 + d) cs
unfolding read_digits
read_digit n d cs one small =
    let same : n * 10 + (48 + d - 48) ≡ n * 10 + d = omega arith in
    ground (arith, ap (λ k. read_digits k cs) same)

read_digits-digits :
    (fuel n : ℕ) (shown : Bytes)
    → n < bound fuel
    → n < u64_mod
    → read_digits 0 (digits fuel n shown) ≡ read_digits n shown
unfolding bound digits
read_digits-digits zero n shown h small = ap (λ k. read_digits k shown) (omega arith)
read_digits-digits (suc fuel) n shown h small = elim (Bool-cases (ltb n 10)) [
  | inl one ↦ rw one (
      read_digit 0 n shown (ground arith) (omega arith)
      ∙ ap (λ k. read_digits k shown) (omega arith))
  | inr more ↦ rw more (
      read_digits-digits fuel (n / 10) ((48 + n % 10) ∷ shown) (omega (arith, h)) (omega arith)
      ∙ (read_digit (n / 10) (n % 10) shown (omega arith) (omega arith)
          ∙ ap (λ k. read_digits k shown) (omega arith)))
]

pub digits-IsDigit :
    (fuel n : ℕ) (shown : Bytes) → All IsDigit shown → All IsDigit (digits fuel n shown)
unfolding digits
digits-IsDigit zero n shown a = a
digits-IsDigit (suc fuel) n shown a =
    ground (arith, digits-IsDigit fuel (n / 10) ((48 + n % 10) ∷ shown))

length-digits : (fuel n : ℕ) (shown : Bytes) → length shown ≤ length (digits fuel n shown)
unfolding digits
length-digits zero n shown = omega arith
length-digits (suc fuel) n shown =
    ground (arith, length-digits fuel (n / 10) ((48 + n % 10) ∷ shown))

pub some_digit : (fuel n : ℕ) → 1 ≤ length (digits (suc fuel) n [])
unfolding digits
some_digit fuel n = ground (arith, length-digits fuel (n / 10) ((48 + n % 10) ∷ []))

split_dots_digits : (cs : Bytes) → All IsDigit cs → split_dots cs ≡ cs ∷ []
split_dots_digits [] a = refl
split_dots_digits (c ∷ cs) a = rw (split_dots_digits cs a.1) (ground arith)

pub split_entity :
    (cs : Bytes)
    → split_dots cs ≡ cs ∷ []
    → split_dots (codes "0.0." ++ cs) ≡ codes "0" ∷ codes "0" ∷ cs ∷ []
split_entity cs h = rw (h, split_dots) refl

pub read_u64_digits : (cs : Bytes) → 1 ≤ length cs → All IsDigit cs → read_u64 cs ≡ read_digits 0 cs
unfolding read_u64
read_u64_digits [] h a = absurd (omega arith)
read_u64_digits (c ∷ []) h a = refl
read_u64_digits (c ∷ d ∷ cs) h a = ground arith

pub read_u64-digits : (n : ℕ) → n < u64_mod → read_u64 (digits 20 n []) ≡ some n
unfolding read_digits bound
read_u64-digits n small =
    read_u64_digits (digits 20 n []) (some_digit 19 n) (digits-IsDigit 20 n [] tt)
    ∙ read_digits-digits 20 n [] (omega arith) small

-- The text of an entity id, a u64, is read back as that id.
pub parse_entity_id-entity_text :
    (id : EntityId) → id < u64_mod → parse_entity_id (entity_text id) ≡ some id
unfolding parse_entity_id entity_text
parse_entity_id-entity_text id small =
    let shown : Bytes = digits 20 id [] in
    let are_digits = digits-IsDigit 20 id [] tt in
    ap entity_of_parts (split_entity shown (split_dots_digits shown are_digits))
    ∙ read_u64-digits id small
