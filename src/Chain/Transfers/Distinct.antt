-- ===== src/Chain/Transfers/Distinct.antt =====
-- The repeat test of `apply_transfer`: no equal neighbours in the sorted ids means that no id
-- stands twice.
use hanvil.Prelude.{
  ℕ, ◌≤◌, ◌≡◌, refl, ◌≢◌, true, false, List, [], ◌∷◌, arith, leb, leb→le, All, Bool-cases, inl, inr,
}
use hanvil.Chain.Transfers.{insert_sorted, sort, has_equal_neighbours}

abbrev Ascending : ℕ → List ℕ → Type 0
Ascending b [] = Unit {0}
Ascending b (x ∷ xs) = (b ≤ x) × Ascending x xs

insert_sorted-Ascending :
    (b x : ℕ) (ys : List ℕ) → b ≤ x → Ascending b ys → Ascending b (insert_sorted x ys)
unfolding insert_sorted
insert_sorted-Ascending b x [] h a = (h, tt)
insert_sorted-Ascending b x (y ∷ ys) h a = ground (arith, insert_sorted-Ascending y x ys)

sort-Ascending : (xs : List ℕ) → Ascending 0 (sort xs)
unfolding sort
sort-Ascending [] = tt
sort-Ascending (x ∷ xs) = insert_sorted-Ascending 0 x (sort xs) (omega arith) (sort-Ascending xs)

-- `x` is not on the list.
abbrev pub Absent : ℕ → List ℕ → Type 0
Absent x = All λ y. y ≢ x

abbrev pub Distinct : List ℕ → Type 0
Distinct [] = Unit {0}
Distinct (x ∷ xs) = Absent x xs × Distinct xs

above-Absent : (x b : ℕ) (ys : List ℕ) → x ≢ b → x ≤ b → Ascending b ys → Absent x ys
above-Absent x b [] n h a = tt
above-Absent x b (y ∷ ys) n h a = (omega arith, above-Absent x y ys (omega arith) (omega arith) a.1)

apart_front :
    (x y : ℕ) (ys : List ℕ)
    → has_equal_neighbours (x ∷ y ∷ ys) ≡ false
    → (x ≢ y) × (has_equal_neighbours (y ∷ ys) ≡ false)
unfolding has_equal_neighbours
apart_front x y ys h = (ground arith, ground arith)

apart_tail :
    (y : ℕ) (l : List ℕ) → has_equal_neighbours (y ∷ l) ≡ false → has_equal_neighbours l ≡ false
unfolding has_equal_neighbours
apart_tail y [] h = refl
apart_tail y (z ∷ l) h = (apart_front y z l h).1

apart_join :
    (x y : ℕ) (ys : List ℕ)
    → x ≢ y
    → has_equal_neighbours (y ∷ ys) ≡ false
    → has_equal_neighbours (x ∷ y ∷ ys) ≡ false
unfolding has_equal_neighbours
apart_join x y ys n h = ground arith

-- A larger number in front of a list with `x` inserted differs from the list's own first.
apart_past :
    (x y z : ℕ) (ys : List ℕ)
    → y ≤ z
    → y ≤ x
    → x ≢ y
    → has_equal_neighbours (y ∷ insert_sorted x (z ∷ ys)) ≡ false
    → y ≢ z
unfolding insert_sorted has_equal_neighbours
apart_past x y z ys a b n h = ground arith

insert_before : (x y : ℕ) (ys : List ℕ) → leb x y ≡ true → insert_sorted x (y ∷ ys) ≡ x ∷ y ∷ ys
unfolding insert_sorted
insert_before x y ys h = rw h

insert_behind :
    (x y : ℕ) (ys : List ℕ) → leb x y ≡ false → insert_sorted x (y ∷ ys) ≡ y ∷ insert_sorted x ys
unfolding insert_sorted
insert_behind x y ys h = rw h

apart_behind :
    (x b y : ℕ) (ys : List ℕ)
    → Ascending b (y ∷ ys)
    → leb x y ≡ false
    → has_equal_neighbours (y ∷ insert_sorted x ys) ≡ false
    → Absent x ys × (has_equal_neighbours ys ≡ false)
    → Absent x (y ∷ ys) × (has_equal_neighbours (y ∷ ys) ≡ false)
unfolding has_equal_neighbours
apart_behind x b y [] a gt h ih = ((ground arith, tt), refl)
apart_behind x b y (z ∷ zs) a gt h ih = (
  (ground arith, ih.0),
  apart_join y z zs (apart_past x y z zs (omega arith) (ground arith) (ground arith) h) ih.1,
)

-- A list with an item more has no equal neighbours only if the item is new, and then none without.
insert_sorted_apart :
    (x b : ℕ) (ys : List ℕ)
    → Ascending b ys
    → has_equal_neighbours (insert_sorted x ys) ≡ false
    → Absent x ys × (has_equal_neighbours ys ≡ false)
unfolding has_equal_neighbours
insert_sorted_apart x b [] a h = (tt, refl)
insert_sorted_apart x b (y ∷ ys) a h = elim (Bool-cases (leb x y)) [
  | inl le ↦
      (let front = apart_front x y ys (rw (insert_before x y ys le) at h) in
        (above-Absent x y (y ∷ ys) front.0 (leb→le x y le) (omega arith, a.1), front.1))
  | inr gt ↦
      (let rest = rw (insert_behind x y ys gt) at h in
        apart_behind x b y ys a gt rest
          (insert_sorted_apart x y ys a.1 (apart_tail y (insert_sorted x ys) rest)))
]

Absent-of_sorted : (x : ℕ) (y : ℕ) (ys : List ℕ) → Absent x (insert_sorted y ys) → Absent x (y ∷ ys)
unfolding insert_sorted
Absent-of_sorted x y [] h = h
Absent-of_sorted x y (z ∷ ys) h = ground (arith, Absent-of_sorted x y ys)

Absent-of_sort : (x : ℕ) (xs : List ℕ) → Absent x (sort xs) → Absent x xs
unfolding sort
Absent-of_sort x [] h = tt
Absent-of_sort x (y ∷ ys) h =
    let parts = Absent-of_sorted x y (sort ys) h in (parts.0, Absent-of_sort x ys parts.1)

-- The repeat test passes only lists on which no id stands twice.
pub sort-Distinct : (xs : List ℕ) → has_equal_neighbours (sort xs) ≡ false → Distinct xs
unfolding sort
sort-Distinct [] h = tt
sort-Distinct (x ∷ xs) h =
    let parts = insert_sorted_apart x 0 (sort xs) (sort-Ascending xs) h in
    (Absent-of_sort x xs parts.0, sort-Distinct xs parts.1)
