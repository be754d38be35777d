-- ===== src/Maps/Totals.antt =====
-- The sum of a measure over the values of a B-tree map, when an entry is added or replaced.
use hanvil.Prelude.{ℕ, ◌+◌, ◌≤◌, ◌≡◌, none, some, [], ◌∷◌, arith}
use hanvil.Maps.BTreeMap.{BTreeMap, get, insert, total}

module _ {ℓ} {V : Type ℓ} (f : V → ℕ) where
  pub total-insert_new :
      (k : ℕ) (v : V) (m : BTreeMap V) → get k m ≡ none → total f (insert k v m) ≡ total f m + f v
  unfolding get insert
  total-insert_new k v [] h = ground arith
  total-insert_new k v ((j, w) ∷ m) h = ground (arith, total-insert_new k v m)

  pub total-insert_old :
      (k : ℕ) (v w : V) (m : BTreeMap V)
      → get k m ≡ some w
      → total f (insert k v m) + f w ≡ total f m + f v
  unfolding get insert
  total-insert_old k v w [] h = ground arith
  total-insert_old k v w ((j, u) ∷ m) h = ground (arith, total-insert_old k v w m)

  pub get-le-total : (k : ℕ) (w : V) (m : BTreeMap V) → get k m ≡ some w → f w ≤ total f m
  unfolding get
  get-le-total k w [] h = ground arith
  get-le-total k w ((j, u) ∷ m) h = ground (arith, get-le-total k w m)
