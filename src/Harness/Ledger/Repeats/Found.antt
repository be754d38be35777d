-- ===== src/Harness/Ledger/Repeats/Found.antt =====
-- Which refusals are found again.
use hanvil.Prelude.{
  ℕ, ◌≡◌, refl, sym, ◌∙◌, arith, Bool, true, false, ◌||◌, List, [], ◌∷◌, map, keep, any, is_some,
  Bool-cases, inl, inr,
}
use hanvil.Text.{same_text→eq}
use hanvil.Harness.Ledger.{Entry, is_rejected}
use hanvil.Harness.Ledger.Repeats.{
  RefusalKey, same_key, less_key, count_one, tally_from, tally, has_key, shown, some_text,
  repeated_from,
}

same_key→eq : (a b : RefusalKey) → same_key a b ≡ true → a ≡ b
same_key→eq (a, b) (c, d) h = grind (arith, same_text→eq a c, same_text→eq b d)

abbrev pub refusal_key : Entry → RefusalKey
refusal_key e = (e.kind, e.result)

module _ (f : RefusalKey → Bool) where
  any-count_one :
      (key : RefusalKey) (m : List (RefusalKey × ℕ))
      → any (λ (p : RefusalKey × ℕ). f p.0) (count_one key m)
        ≡ (f key || any (λ (p : RefusalKey × ℕ). f p.0) m)
  any-count_one key [] = ground arith
  any-count_one key ((k, n) ∷ rest) = elim (Bool-cases (same_key key k)) [
    | inl same ↦ rw (same, sym (same_key→eq key k same)) (ground arith)
    | inr other ↦ elim (Bool-cases (less_key key k)) [
      | inl first ↦ rw (other, first) refl
      | inr later ↦ rw (other, later) (ground (arith, any-count_one key rest))
    ]
  ]

  any-tally_from :
      (m : List (RefusalKey × ℕ)) (es : List Entry)
      → any (λ (p : RefusalKey × ℕ). f p.0) (tally_from m es)
        ≡ (any (λ e. f (refusal_key e)) es || any (λ (p : RefusalKey × ℕ). f p.0) m)
  any-tally_from m [] = ground arith
  any-tally_from m (e ∷ es) =
      any-tally_from (count_one (refusal_key e) m) es
      ∙ ground (arith, any-count_one (refusal_key e) m)

is_some-shown :
    (f : RefusalKey × ℕ → Bool) (m : List (RefusalKey × ℕ))
    → is_some (some_text (map shown (keep f m))) ≡ any f m
is_some-shown f [] = refl
is_some-shown f (p ∷ m) = elim (Bool-cases (f p)) [
  | inl found ↦ rw (found, keep) refl
  | inr other ↦ rw (other, keep) (is_some-shown f m)
]

or_false : (b : Bool) → (b || false) ≡ b
or_false true = refl
or_false false = refl

any_eq :
    {A : Type 0} (f g : A → Bool) (xs : List A)
    → ((x : A) → f x ≡ g x)
    → (any f xs || false) ≡ any g xs
any_eq f g [] same = refl
any_eq f g (x ∷ xs) same = grind (arith, same x, any_eq f g xs same)

has_key-tally :
    (key : RefusalKey) (es : List Entry)
    → has_key key (tally es) ≡ any (λ b. same_key key (refusal_key b)) (keep is_rejected es)
unfolding tally
has_key-tally key es =
    any-tally_from (same_key key) [] (keep is_rejected es)
    ∙ or_false (any (λ b. same_key key (refusal_key b)) (keep is_rejected es))

-- An attempt is told of repeated refusals exactly if some transaction of it was refused with a kind
-- and a result that a refused transaction of the attempt before has too, wherever in its ledger.
pub repeated_from_lem :
    (entries previous : List Entry)
    → is_some (repeated_from entries previous)
      ≡ any
          (λ e. any (λ b. same_key (refusal_key e) (refusal_key b)) (keep is_rejected previous))
          (keep is_rejected entries)
unfolding repeated_from tally
repeated_from_lem entries previous =
    is_some-shown (λ p. has_key p.0 (tally previous)) (tally entries)
    ∙ (any-tally_from (λ key. has_key key (tally previous)) [] (keep is_rejected entries)
        ∙ any_eq (λ e. has_key (refusal_key e) (tally previous))
            (λ e. any (λ b. same_key (refusal_key e) (refusal_key b)) (keep is_rejected previous))
            (keep is_rejected entries) (λ e. has_key-tally (refusal_key e) previous))
