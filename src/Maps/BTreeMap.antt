-- ===== src/Maps/BTreeMap.antt =====
-- `BTreeMap<u64, V>`: the entries in the order of their keys, which is the order of iteration.
use hanvil.Prelude.{
  ℕ, ◌+◌, ◌≤◌, ◌≡◌, refl, Bool, Option, none, some, List, [], ◌∷◌, map, arith, ltb, ◌==◌,
  if◌then◌else◌, is_some,
}

abbrev pub BTreeMap {ℓ} : Type ℓ → Type ℓ
BTreeMap V = List (ℕ × V)

module _ {ℓ} {V : Type ℓ} where
  -- A lookup stops at the first larger key.
  unfoldable pub get : ℕ → BTreeMap V → Option V
  get k [] = none
  get k ((j, w) ∷ m) = if ltb k j then none else if k == j then some w else get k m

  unfoldable pub insert : ℕ → V → BTreeMap V → BTreeMap V
  insert k v [] = (k, v) ∷ []
  insert k v ((j, w) ∷ m) =
      if ltb k j then (k, v) ∷ (j, w) ∷ m else if k == j then (k, v) ∷ m else (j, w) ∷ insert k v m

  unfoldable pub remove : ℕ → BTreeMap V → BTreeMap V
  remove k [] = []
  remove k ((j, w) ∷ m) = if k == j then m else (j, w) ∷ remove k m

  abbrev pub contains_key : ℕ → BTreeMap V → Bool
  contains_key k m = is_some (get k m)

  abbrev pub values : BTreeMap V → List V
  values = map λ p. p.1

  pub get-insert :
      (k : ℕ) (v : V) (m : BTreeMap V) (j : ℕ)
      → get j (insert k v m) ≡ (if k == j then some v else get j m)
  unfolding get insert
  get-insert k v [] j = ground arith
  get-insert k v ((i, w) ∷ m) j = ground (arith, get-insert k v m j)

  pub get-insert_self : (k : ℕ) (v : V) (m : BTreeMap V) → get k (insert k v m) ≡ some v
  get-insert_self k v m = ground (arith, get-insert k v m k)

  -- Keys strictly rise from above `b`.
  abbrev pub Above : ℕ → BTreeMap V → Type 0
  Above b [] = Unit {0}
  Above b ((j, w) ∷ m) = (b ≤ j) × Above (j + 1) m

  pub insert-Above : (b k : ℕ) (v : V) (m : BTreeMap V) → b ≤ k → Above b m → Above b (insert k v m)
  unfolding insert
  insert-Above b k v [] h a = (h, tt)
  insert-Above b k v ((j, w) ∷ m) h a = ground (arith, insert-Above (j + 1) k v m)

  pub Above-weaken : (b c : ℕ) (m : BTreeMap V) → c ≤ b → Above b m → Above c m
  Above-weaken b c [] h a = tt
  Above-weaken b c ((j, w) ∷ m) h a = (omega arith, a.1)

  pub get-below : (k b : ℕ) (m : BTreeMap V) → k + 1 ≤ b → Above b m → get k m ≡ none
  unfolding get
  get-below k b [] h a = refl
  get-below k b ((j, w) ∷ m) h a = ground arith

  pub remove-Above : (b k : ℕ) (m : BTreeMap V) → Above b m → Above b (remove k m)
  unfolding remove
  remove-Above b k [] a = tt
  remove-Above b k ((j, w) ∷ m) a =
      ground (arith, remove-Above (j + 1) k m a.1, Above-weaken (j + 1) b m)

  pub get-remove :
      (b k j : ℕ) (m : BTreeMap V)
      → Above b m
      → get j (remove k m) ≡ (if k == j then none else get j m)
  unfolding get remove
  get-remove b k j [] a = ground arith
  get-remove b k j ((i, w) ∷ m) a =
      ground (arith, get-remove (i + 1) k j m a.1, get-below j (i + 1) m)

  module _ (f : V → ℕ) where
    -- The sum of a measure over the values.
    abbrev pub total : BTreeMap V → ℕ
    total [] = 0
    total ((j, w) ∷ m) = f w + total m
