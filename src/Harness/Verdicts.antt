-- ===== src/Harness/Verdicts.antt =====
-- The search for JSON objects in an evaluator's output, of src/harness/evaluate.rs.
pub mod Braces
use hanvil.Prelude.{
  ℕ, ◌+◌, ◌-◌, ◌==◌, ℤ, pos, negsuc, ◌+ℤ◌, Bool, true, false, Option, none, some, List, [], ◌∷◌,
  Bytes, take, drop, if◌then◌else◌,
}

abbrev pub quote : ℕ
quote = 34

abbrev pub backslash : ℕ
backslash = 92

abbrev pub open_brace : ℕ
open_brace = 123

abbrev pub close_brace : ℕ
close_brace = 125

-- The depth is an i32 in the source; a text of less than 2 GiB does not exceed it.
pub record Scan : Type 0 where
  pub depth : ℤ
  pub in_string : Bool
  pub escape : Bool

abbrev pub fresh_scan : Scan
fresh_scan = record { depth = pos 0; in_string = false; escape = false }

abbrev pub is_zero : ℤ → Bool
is_zero (pos n) = n == 0
is_zero (negsuc n) = false

-- One byte: the scan behind it, and whether it is the brace looked for.
unfoldable pub advance : Scan → ℕ → Scan × Bool
unfolding ◌+ℤ◌
advance s b =
    if s.in_string
    then (
      if s.escape
          then record s { escape = false }
          else if b == backslash
          then record s { escape = true }
          else if b == quote
          then record s { in_string = false }
          else s,
      false,
    )
    else if b == quote
    then (record s { in_string = true }, false)
    else if b == open_brace
    then (record s { depth = s.depth +ℤ pos 1 }, false)
    else if b == close_brace
    then (record s { depth = s.depth +ℤ negsuc 0 }, is_zero (s.depth +ℤ negsuc 0))
    else (s, false)

unfoldable pub brace_from : ℕ → Scan → Bytes → Option ℕ
unfolding advance
brace_from i s [] = none
brace_from i s (b ∷ bs) =
    let (s', found) = advance s b in
    let rest = brace_from (i + 1) s' bs in if found then some i else rest

unfoldable pub matching_brace : Bytes → ℕ → Option ℕ
unfolding brace_from
matching_brace bytes start = brace_from start fresh_scan (drop start bytes)

-- The objects that start at `start` or behind it, where `rest` is the text from there on.
unfoldable pub objects_from : Bytes → ℕ → Bytes → List Bytes
unfolding matching_brace
objects_from text start [] = []
objects_from text start (b ∷ rest) =
    let others = objects_from text (start + 1) rest in
    if b == open_brace
    then elim (matching_brace text start) [
      | none ↦ others
      | some end ↦ take (end + 1 - start) (drop start text) ∷ others
    ]
    else others

unfoldable pub balanced_json_objects : Bytes → List Bytes
unfolding objects_from
balanced_json_objects text = objects_from text 0 text
