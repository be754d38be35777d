-- ===== src/Harness/Verdicts/Braces.antt =====
-- The scan finds the brace that closes an object.
use hanvil.Prelude.{
  ℕ, suc, ◌+◌, ◌==◌, ◌≡◌, refl, ◌∙◌, ap, arith, pos, negsuc, ◌+ℤ◌, Bool, true, false, ◌||◌, some,
  List, [], ◌∷◌, Bytes, take, drop, ◌++◌, take-append, drop_one, subst, length, All, if◌then◌else◌,
}
use hanvil.Harness.Verdicts.{
  quote, backslash, open_brace, close_brace, Scan, fresh_scan, advance, is_zero, brace_from,
  matching_brace, objects_from, balanced_json_objects,
}

-- The text of a string: bytes that stand for themselves, and escaped ones.
pub data Char : Type 0 where
  itself : (b : ℕ) → (b == quote || b == backslash) ≡ false → Char
  escaped : ℕ → Char

-- The text between two braces: a byte of something else, a string, an object.
mutual
  pub data Item : Type 0 where
    other : (b : ℕ) → (b == quote || (b == open_brace || b == close_brace)) ≡ false → Item
    string : List Char → Item
    object : Items → Item

  pub data Items : Type 0 where
    nil : Items
    cons : Item → Items → Items

-- Each text is written in front of what follows it.
abbrev pub write_chars : List Char → Bytes → Bytes
write_chars [] tail = tail
write_chars (itself b h ∷ cs) tail = b ∷ write_chars cs tail
write_chars (escaped b ∷ cs) tail = backslash ∷ b ∷ write_chars cs tail

unfoldable mutual
  pub write : Item → Bytes → Bytes
  write (other b h) tail = b ∷ tail
  write (string cs) tail = quote ∷ write_chars cs (quote ∷ tail)
  write (object items) tail = open_brace ∷ write_all items (close_brace ∷ tail)

  pub write_all : Items → Bytes → Bytes
  write_all nil tail = tail
  write_all (cons x xs) tail = write x (write_all xs tail)

-- How many bytes a text adds.
size_chars : List Char → ℕ
size_chars [] = 0
size_chars (itself b h ∷ cs) = 1 + size_chars cs
size_chars (escaped b ∷ cs) = 2 + size_chars cs

mutual
  size : Item → ℕ
  size (other b h) = 1
  size (string cs) = 2 + size_chars cs
  size (object items) = 2 + size_all items

  size_all : Items → ℕ
  size_all nil = 0
  size_all (cons x xs) = size x + size_all xs

-- Inside `d + 1` braces, outside of a string and in one.
abbrev outside : ℕ → Scan
outside d = record { depth = pos (d + 1); in_string = false; escape = false }

abbrev inside : ℕ → Scan
inside d = record { depth = pos (d + 1); in_string = true; escape = false }

scan_chars :
    (i d : ℕ) (cs : List Char) (tail : Bytes)
    → brace_from i (inside d) (write_chars cs tail) ≡ brace_from (i + size_chars cs) (inside d) tail
unfolding brace_from size_chars
scan_chars i d [] tail = ap (λ n. brace_from n (inside d) tail) (omega arith)
scan_chars i d (itself b h ∷ cs) tail =
    ap (λ s. brace_from (i + 1) s (write_chars cs tail)) stays
    ∙ (scan_chars (i + 1) d cs tail ∙ ap (λ n. brace_from n (inside d) tail) (omega arith))
  where
    stays :
        (if b == backslash
          then record (inside d) { escape = true }
          else if b == quote
          then record (inside d) { in_string = false }
          else inside d)
        ≡ inside d
    stays = ground arith
scan_chars i d (escaped b ∷ cs) tail =
    scan_chars (i + 1 + 1) d cs tail ∙ ap (λ n. brace_from n (inside d) tail) (omega arith)

scan_other :
    (i d b : ℕ) (tail : Bytes)
    → (b == quote || (b == open_brace || b == close_brace)) ≡ false
    → brace_from i (outside d) (b ∷ tail) ≡ brace_from (i + 1) (outside d) tail
unfolding brace_from advance
scan_other i d b tail h =
    ap (λ (r : Scan × Bool). if r.1 then some i else brace_from (i + 1) r.0 tail) passes
  where
    passes : advance (outside d) b ≡ (outside d, false)
    passes = ground arith

scan_open :
    (i d : ℕ) (tail : Bytes)
    → brace_from i (outside d) (open_brace ∷ tail) ≡ brace_from (i + 1) (outside (d + 1)) tail
unfolding brace_from
scan_open i d tail = ap (λ n. brace_from (i + 1) (record (outside d) { depth = n }) tail) up
  where
    up : (pos (d + 1) +ℤ pos 1) ≡ pos (d + 1 + 1)
    up = ground arith

scan_close :
    (i d : ℕ) (tail : Bytes)
    → brace_from i (outside (d + 1)) (close_brace ∷ tail) ≡ brace_from (i + 1) (outside d) tail
unfolding brace_from
scan_close i d tail =
    ap
      (λ n.
        if is_zero n then some i else brace_from (i + 1) (record (outside d) { depth = n }) tail)
      down
    ∙ ground arith
  where
    down : (pos (d + 1 + 1) +ℤ negsuc 0) ≡ pos (d + 1)
    down = ground arith

scan_last : (i : ℕ) (tail : Bytes) → brace_from i (outside 0) (close_brace ∷ tail) ≡ some i
unfolding brace_from
scan_last i tail = refl

scan_string :
    (i d : ℕ) (cs : List Char) (tail : Bytes)
    → brace_from i (outside d) (quote ∷ write_chars cs (quote ∷ tail))
      ≡ brace_from (i + (2 + size_chars cs)) (outside d) tail
unfolding brace_from
scan_string i d cs tail =
    scan_chars (i + 1) d cs (quote ∷ tail) ∙ ap (λ n. brace_from n (outside d) tail) (omega arith)

mutual
  unfolding write size

  scan_item :
      (i d : ℕ) (x : Item) (tail : Bytes)
      → brace_from i (outside d) (write x tail) ≡ brace_from (i + size x) (outside d) tail
  scan_item i d (other b h) tail = scan_other i d b tail h
  scan_item i d (string cs) tail = scan_string i d cs tail
  scan_item i d (object items) tail =
      scan_open i d (write_all items (close_brace ∷ tail))
      ∙ (scan_items (i + 1) (d + 1) items (close_brace ∷ tail)
          ∙ (scan_close (i + 1 + size_all items) d tail
              ∙ ap (λ n. brace_from n (outside d) tail) (omega arith)))

  scan_items :
      (i d : ℕ) (xs : Items) (tail : Bytes)
      → brace_from i (outside d) (write_all xs tail) ≡ brace_from (i + size_all xs) (outside d) tail
  scan_items i d nil tail = ap (λ n. brace_from n (outside d) tail) (omega arith)
  scan_items i d (cons x xs) tail =
      scan_item i d x (write_all xs tail)
      ∙ (scan_items (i + size x) d xs tail ∙ ap (λ n. brace_from n (outside d) tail) (omega arith))

write_chars-append :
    (cs : List Char) (xs ys : Bytes) → write_chars cs (xs ++ ys) ≡ write_chars cs xs ++ ys
write_chars-append [] xs ys = refl
write_chars-append (itself b h ∷ cs) xs ys = ap (b ∷◌) (write_chars-append cs xs ys)
write_chars-append (escaped b ∷ cs) xs ys =
    ap (λ l. backslash ∷ b ∷ l) (write_chars-append cs xs ys)

length-write_chars :
    (cs : List Char) (tail : Bytes) → length (write_chars cs tail) ≡ size_chars cs + length tail
unfolding size_chars
length-write_chars [] tail = omega arith
length-write_chars (itself b h ∷ cs) tail = omega (arith, length-write_chars cs tail)
length-write_chars (escaped b ∷ cs) tail = omega (arith, length-write_chars cs tail)

mutual
  unfolding write size

  write-append : (x : Item) (xs ys : Bytes) → write x (xs ++ ys) ≡ write x xs ++ ys
  write-append (other b h) xs ys = refl
  write-append (string cs) xs ys = ap (quote ∷◌) (write_chars-append cs (quote ∷ xs) ys)
  write-append (object items) xs ys =
      ap (open_brace ∷◌) (write_all-append items (close_brace ∷ xs) ys)

  write_all-append : (l : Items) (xs ys : Bytes) → write_all l (xs ++ ys) ≡ write_all l xs ++ ys
  write_all-append nil xs ys = refl
  write_all-append (cons x l) xs ys =
      ap (write x) (write_all-append l xs ys) ∙ write-append x (write_all l xs) ys

  length-write : (x : Item) (tail : Bytes) → length (write x tail) ≡ size x + length tail
  length-write (other b h) tail = omega arith
  length-write (string cs) tail = omega (arith, length-write_chars cs (quote ∷ tail))
  length-write (object items) tail = omega (arith, length-write_all items (close_brace ∷ tail))

  length-write_all :
      (l : Items) (tail : Bytes) → length (write_all l tail) ≡ size_all l + length tail
  length-write_all nil tail = omega arith
  length-write_all (cons x l) tail =
      omega (arith, length-write x (write_all l tail), length-write_all l tail)

-- An object that starts at `start` is closed where it ends.
object_scanned :
    (text : Bytes) (start : ℕ) (items : Items) (tail : Bytes)
    → drop start text ≡ write (object items) tail
    → matching_brace text start ≡ some (start + size_all items + 1)
unfolding matching_brace write
object_scanned text start items tail h =
    ap (brace_from start fresh_scan) h
    ∙ ((unfold brace_from in scan_items (start + 1) 0 items (close_brace ∷ tail))
        ∙ (scan_last (start + 1 + size_all items) tail ∙ ap some (omega arith)))

object_taken :
    (items : Items) (tail : Bytes)
    → take (size_all items + 2) (write (object items) tail) ≡ write (object items) []
object_taken items tail =
    ap (take (size_all items + 2)) (write-append (object items) [] tail)
    ∙ take-append (write (object items) []) tail (size_all items + 2)
        (unfold size in omega (arith, length-write (object items) []))

-- No byte of the text opens an object.
abbrev pub OpensNothing : Bytes → Type 0
OpensNothing = All λ b. (b == open_brace) ≡ false

first_object :
    (text before : Bytes) (start : ℕ) (items : Items) (tail : Bytes)
    → OpensNothing before
    → drop start text ≡ before ++ write (object items) tail
    → (others : List Bytes) × (objects_from text start (before ++ write (object items) tail)
        ≡ write (object items) [] ∷ others)
unfolding objects_from write
first_object text [] start items tail a h = (
  objects_from text (start + 1) (write_all items (close_brace ∷ tail)),
  rw (object_scanned text start items tail h) (
      ap (λ l. l ∷ objects_from text (start + 1) (write_all items (close_brace ∷ tail)))
        (ap (λ n. take n (drop start text)) (omega arith)
          ∙ (ap (take (size_all items + 2)) h ∙ object_taken items tail))),
)
first_object text (b ∷ before) start items tail a h =
    let one : suc start ≡ start + 1 = omega arith in
    let next : drop (start + 1) text ≡ before ++ write (object items) tail =
      subst (λ n. drop n text ≡ before ++ write (object items) tail) one
        (drop_one start text b _ h) in
    let (others, e) = first_object text before (start + 1) items tail a.1 next in (others, rw a.0 e)

-- In an evaluator's output in which nothing before it has an opening brace, an object, however
-- deep, with braces, quotes and backslashes in its strings as they may be, is the first object
-- found, whole and with nothing of what follows it.
pub balanced_json_objects-object :
    (before : Bytes) (items : Items) (tail : Bytes)
    → OpensNothing before
    → (others : List Bytes) × (balanced_json_objects (before ++ write (object items) tail)
        ≡ write (object items) [] ∷ others)
unfolding balanced_json_objects
balanced_json_objects-object before items tail h =
    first_object (before ++ write (object items) tail) before 0 items tail h refl
