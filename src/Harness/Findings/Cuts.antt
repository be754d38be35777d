-- ===== src/Harness/Findings/Cuts.antt =====
-- Details are cut to length.
use hanvil.Prelude.{
  ℕ, zero, suc, ◌+◌, ◌≤◌, ◌<◌, ◌≡◌, refl, ap, inl, inr, false, Bool-cases, arith, leb, [], ◌∷◌,
  ◌++◌, Bytes, codes, length, take, length-append,
}
use hanvil.Text.{trim}
use hanvil.Harness.Findings.{truncate_to}

length-take_le : (n : ℕ) (xs : Bytes) → length (take n xs) ≤ n
length-take_le zero xs = omega arith
length-take_le (suc n) [] = omega arith
length-take_le (suc n) (x ∷ xs) = omega (arith, length-take_le n xs)

take-take_append : (n : ℕ) (xs ys : Bytes) → n ≤ length xs → take n (take n xs ++ ys) ≡ take n xs
take-take_append zero xs ys h = refl
take-take_append (suc n) [] ys h = absurd (omega arith)
take-take_append (suc n) (x ∷ xs) ys h = ap (λ r. x ∷ r) (take-take_append n xs ys (omega arith))

gt_of_not_leb : (a b : ℕ) → leb a b ≡ false → b < a
gt_of_not_leb a b h = ground arith

-- Whatever the text, what is left of it has at most three characters more than asked for, and as
-- many characters as asked for at its start are those of the trimmed text.
truncate_to_bounds :
    (text : Bytes) (most : ℕ)
    → (length (truncate_to text most) ≤ most + 3)
      × (take most (truncate_to text most) ≡ take most (trim text))
unfolding truncate_to
truncate_to_bounds text most = (
  ground
      (arith, length-append (take most (trim text)) (codes "..."), length-take_le most (trim text)),
  elim (Bool-cases (leb (length (trim text)) most)) [
    | inl e ↦ rw e refl
    | inr e ↦
        rw e (take-take_append most (trim text) (codes "...") (omega (arith, gt_of_not_leb _ _ e)))
  ],
)
