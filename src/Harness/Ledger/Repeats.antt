-- ===== src/Harness/Ledger/Repeats.antt =====
-- `Ledger::repeated_from`, of src/harness/ledger.rs: the refusals of the attempt before that an
-- attempt was given again.
pub mod Found
use hanvil.Prelude.{
  ℕ, ◌+◌, ◌==◌, Bool, true, false, ◌&&◌, ◌||◌, Option, none, some, List, [], ◌∷◌, ◌++◌, map, Bytes,
  codes, ltb, leb, length, take, keep, any, if◌then◌else◌,
}
use hanvil.Word.{decimal}
use hanvil.Text.{same_text, trim_end}
use hanvil.Harness.Ledger.{Entry, is_rejected}

-- A kind and a result.
abbrev pub RefusalKey : Type 0
RefusalKey = Bytes × Bytes

abbrev less_text : Bytes → Bytes → Bool
less_text [] [] = false
less_text [] (y ∷ ys) = true
less_text (x ∷ xs) [] = false
less_text (x ∷ xs) (y ∷ ys) = ltb x y || (x == y && less_text xs ys)

abbrev less_key : RefusalKey → RefusalKey → Bool
less_key (a, b) (c, d) = less_text a c || (same_text a c && less_text b d)

abbrev pub same_key : RefusalKey → RefusalKey → Bool
same_key (a, b) (c, d) = same_text a c && same_text b d

-- `*counts.entry(key).or_default() += 1`
abbrev pub count_one : RefusalKey → List (RefusalKey × ℕ) → List (RefusalKey × ℕ)
count_one key [] = (key, 1) ∷ []
count_one key ((k, n) ∷ rest) =
    let later = count_one key rest in
    if same_key key k
    then (k, n + 1) ∷ rest
    else if less_key key k
    then (key, 1) ∷ (k, n) ∷ rest
    else (k, n) ∷ later

abbrev pub tally_from : List (RefusalKey × ℕ) → List Entry → List (RefusalKey × ℕ)
tally_from found [] = found
tally_from found (e ∷ es) = tally_from (count_one (e.kind, e.result) found) es

unfoldable pub tally : List Entry → List (RefusalKey × ℕ)
tally entries = tally_from [] (keep is_rejected entries)

abbrev pub has_key : RefusalKey → List (RefusalKey × ℕ) → Bool
has_key key found = any (λ (p : RefusalKey × ℕ). same_key key p.0) found

-- A long message is cut, with an ellipsis behind.
abbrev clip : Bytes → Bytes
clip result = if leb (length result) 56 then result else trim_end (take 55 result) ++ (8230 ∷ [])

abbrev shown : RefusalKey × ℕ → Bytes
shown ((kind, result), count) =
    decimal count ++ (215 ∷ 32 ∷ (kind ++ (32 ∷ 8212 ∷ 32 ∷ clip result)))

abbrev joined : List Bytes → Bytes
joined [] = []
joined (x ∷ []) = x
joined (x ∷ y ∷ xs) = x ++ (codes "; " ++ joined (y ∷ xs))

abbrev some_text : List Bytes → Option Bytes
some_text [] = none
some_text (x ∷ xs) = some (joined (x ∷ xs))

unfoldable pub repeated_from : List Entry → List Entry → Option Bytes
unfolding tally decimal trim_end
repeated_from entries previous =
    let before = tally previous in
    some_text (map shown (keep (λ (p : RefusalKey × ℕ). has_key p.0 before) (tally entries)))
