-- ===== src/Text.antt =====
-- Texts as lists of character codes, or of the bytes of an ASCII text, with the operations of
-- `str` that the program uses.
use hanvil.Prelude.{
  ℕ, ◌≡◌, refl, ap, Bool, true, false, ◌&&◌, ◌||◌, List, [], ◌∷◌, ◌++◌, codes, Option, none, some,
  Bytes, ◌==◌, ==_iff, leb, keep, any, if◌then◌else◌, arith,
}

abbrev pub same_text : Bytes → Bytes → Bool
same_text [] [] = true
same_text [] (y ∷ ys) = false
same_text (x ∷ xs) [] = false
same_text (x ∷ xs) (y ∷ ys) = x == y && same_text xs ys

pub same_text→eq : (a b : Bytes) → same_text a b ≡ true → a ≡ b
same_text→eq [] [] h = refl
same_text→eq [] (y ∷ ys) h = cc
same_text→eq (x ∷ xs) [] h = cc
same_text→eq (x ∷ xs) (y ∷ ys) h = grind (arith, same_text→eq xs ys, ==_iff x y)

pub same_text_refl : (a : Bytes) → same_text a a ≡ true
same_text_refl [] = refl
same_text_refl (x ∷ xs) = ground (arith, same_text_refl xs)

-- A `HashSet` of texts, or a list of them, has a text.
unfoldable pub has : Bytes → List Bytes → Bool
has y xs = any (same_text y) xs

-- `char::is_whitespace`
unfoldable pub is_whitespace : ℕ → Bool
is_whitespace c =
    (leb 9 c && leb c 13)
    || (c == 0x20
        || (c == 0x85
            || (c == 0xa0
                || (c == 0x1680
                    || ((leb 0x2000 c && leb c 0x200a)
                        || (c == 0x2028
                            || (c == 0x2029 || (c == 0x202f || (c == 0x205f || c == 0x3000)))))))))

unfoldable pub trim_start : Bytes → Bytes
unfolding is_whitespace
trim_start [] = []
trim_start (c ∷ cs) = let rest = trim_start cs in if is_whitespace c then rest else c ∷ cs

-- A character stays where one behind it stays, or where it is no white space.
unfoldable pub trim_end : Bytes → Bytes
unfolding is_whitespace
trim_end [] = []
trim_end (c ∷ cs) = elim (trim_end cs) [
  | [] ↦ if is_whitespace c then [] else c ∷ []
  | d ∷ ds ↦ c ∷ d ∷ ds
]

abbrev pub trim : Bytes → Bytes
trim text = trim_end (trim_start text)

-- `text.split(sep)` for a character: the parts between its occurrences, one at least.
abbrev pub split_on : ℕ → Bytes → List Bytes
split_on sep [] = [] ∷ []
split_on sep (c ∷ cs) = elim (split_on sep cs) [
  | [] ↦ []
  | part ∷ parts ↦ if c == sep then [] ∷ part ∷ parts else (c ∷ part) ∷ parts
]

-- A set of texts is read by equality alone.
pub has-same : (x y : Bytes) (seen : List Bytes) → same_text x y ≡ true → has x seen ≡ has y seen
has-same x y seen h = ap (λ t. has t seen) (same_text→eq x y h)

-- The elements that pass a test.
pub has-keep :
    (p : Bytes → Bool) (y : Bytes) (xs : List Bytes) → has y (keep p xs) ≡ (has y xs && p y)
unfolding has
has-keep p y [] = refl
has-keep p y (x ∷ xs) = grind (arith, has-keep p y xs, same_text→eq y x)

-- `text.split_once(sep)` for a character.
abbrev pub split_once : ℕ → Bytes → Option (Bytes × Bytes)
split_once sep [] = none
split_once sep (c ∷ cs) = if c == sep then some ([], cs) else elim (split_once sep cs) [
  | none ↦ none
  | some (before, behind) ↦ some (c ∷ before, behind)
]

-- `parts.join(", ")`
abbrev pub join : List Bytes → Bytes
join [] = []
join (p ∷ []) = p
join (p ∷ q ∷ ps) = p ++ (codes ", " ++ join (q ∷ ps))

-- `text.strip_prefix(prefix)`
abbrev pub strip_prefix : Bytes → Bytes → Option Bytes
strip_prefix [] text = some text
strip_prefix (p ∷ prefix) [] = none
strip_prefix (p ∷ prefix) (c ∷ text) =
    let rest = strip_prefix prefix text in if p == c then rest else none
