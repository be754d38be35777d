-- ===== src/Chain/Snapshots/Retained.antt =====
-- The entries of a map below a key.
use hanvil.Prelude.{
  ◌∙◌, sym, ap, some, if◌then◌else◌, ◌==◌, ℕ, ◌+◌, ltb, Bool-cases, inl, inr, ◌≤◌, ◌<◌, ◌≡◌, refl,
  [], ◌∷◌, arith,
}
use hanvil.Maps.BTreeMap.{BTreeMap, get, insert, remove, Above, Above-weaken, get-below}
use hanvil.Chain.Snapshots.{retain_below}

-- Every key is below `b`.
abbrev pub Below {ℓ} : {V : Type ℓ} → ℕ → BTreeMap V → Type 0
Below b [] = Unit {0}
Below b ((j, w) ∷ m) = (j < b) × Below b m

module _ {ℓ} {V : Type ℓ} where
  -- A key above all others is added and taken away again.
  pub retain_below_all : (b : ℕ) (m : BTreeMap V) → Below b m → retain_below b m ≡ m
  unfolding retain_below
  retain_below_all b [] h = refl
  retain_below_all b ((j, w) ∷ m) h = ground (arith, retain_below_all b m h.1)

  pub remove-insert_top : (b : ℕ) (v : V) (m : BTreeMap V) → Below b m → remove b (insert b v m) ≡ m
  unfolding remove insert
  remove-insert_top b v [] h = ground arith
  remove-insert_top b v ((j, w) ∷ m) h = ground (arith, remove-insert_top b v m h.1)

module _ {ℓ} {V : Type ℓ} where
  pub retain_below-retain_below :
      (a b : ℕ) (m : BTreeMap V) → a ≤ b → retain_below a (retain_below b m) ≡ retain_below a m
  unfolding retain_below
  retain_below-retain_below a b [] le = refl
  retain_below-retain_below a b ((j, w) ∷ m) le = ground (arith, retain_below-retain_below a b m le)

  pub retain_below-remove :
      (a : ℕ) (m : BTreeMap V) → retain_below a (remove a m) ≡ retain_below a m
  unfolding retain_below remove
  retain_below-remove a [] = refl
  retain_below-remove a ((j, w) ∷ m) = ground (arith, retain_below-remove a m)

  retain_below-Above : (c b : ℕ) (m : BTreeMap V) → Above c m → Above c (retain_below b m)
  unfolding retain_below
  retain_below-Above c b [] h = tt
  retain_below-Above c b ((j, w) ∷ m) h = elim (Bool-cases (ltb j b)) [
    | inl kept ↦ rw (kept, retain_below, Above) (h.0, retain_below-Above (j + 1) b m h.1)
    | inr dropped ↦
        rw (dropped, retain_below, Above)
          (Above-weaken (j + 1) c (retain_below b m) (omega (arith, h.0))
            (retain_below-Above (j + 1) b m h.1))
  ]

  retain_below-kept :
      (b j : ℕ) (w : V) (m : BTreeMap V)
      → j < b
      → retain_below b ((j, w) ∷ m) ≡ (j, w) ∷ retain_below b m
  unfolding retain_below
  retain_below-kept b j w m lt = ground arith

  pub get-retain_below :
      (k b c : ℕ) (m : BTreeMap V) → k < b → Above c m → get k (retain_below b m) ≡ get k m
  unfolding retain_below get
  get-retain_below k b c [] lt h = refl
  get-retain_below k b c ((j, w) ∷ m) lt h = elim (Bool-cases (ltb k j)) [
    | inl far ↦
        (let above : Above (k + 1) ((j, w) ∷ m) = (ground (arith, far), h.1) in
          get-below k (k + 1) (retain_below b ((j, w) ∷ m)) (omega arith)
            (retain_below-Above (k + 1) b ((j, w) ∷ m) above)
          ∙ sym (get-below k (k + 1) ((j, w) ∷ m) (omega arith) above))
    | inr near ↦
        rw (retain_below-kept b j w m (ground (arith, near, lt)), near, get)
          (ap (λ o. if k == j then some w else o) (get-retain_below k b (j + 1) m lt h.1))
  ]

  pub Below-mono : (a b : ℕ) (m : BTreeMap V) → a ≤ b → Below a m → Below b m
  Below-mono a b [] le h = tt
  Below-mono a b ((j, w) ∷ m) le h = (omega (arith, h.0, le), Below-mono a b m le h.1)
