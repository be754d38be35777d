-- ===== src/Chain/Snapshots/Copies.antt =====
-- What holds of a chain and of every snapshot of it.
use hanvil.Prelude.{
  ℕ, ◌≡◌, arith, subst, some, [], ◌∷◌, All, ◌==◌, Option-cases, Bool-cases, inl, inr,
}
use hanvil.Maps.BTreeMap.{BTreeMap}
use hanvil.Maps.BTreeMap
use hanvil.Chain.{ChainState, Chain}
use hanvil.Chain.Snapshots.{retain_below, snapshot, revert}

module _ {V : Type 0} (P : V → Type 0) where
  -- Every value of a map.
  abbrev pub Values : BTreeMap V → Type 0
  Values m = All (λ p. P p.1) m

  insert-Values : (k : ℕ) (v : V) (m : BTreeMap V) → P v → Values m → Values (BTreeMap.insert k v m)
  unfolding BTreeMap.insert
  insert-Values k v [] p a = (p, tt)
  insert-Values k v ((j, w) ∷ m) p a = ground (arith, insert-Values k v m p a.1)

  remove-Values : (k : ℕ) (m : BTreeMap V) → Values m → Values (BTreeMap.remove k m)
  unfolding BTreeMap.remove
  remove-Values k [] a = tt
  remove-Values k ((j, w) ∷ m) a = ground (arith, remove-Values k m a.1)

  retain-Values : (k : ℕ) (m : BTreeMap V) → Values m → Values (retain_below k m)
  unfolding retain_below
  retain-Values k [] a = tt
  retain-Values k ((j, w) ∷ m) a = ground (arith, retain-Values k m a.1)

  get-Values : (k : ℕ) (v : V) (m : BTreeMap V) → Values m → BTreeMap.get k m ≡ some v → P v
  unfolding BTreeMap.get
  get-Values k v [] a h = cc
  get-Values k v ((j, w) ∷ m) a h = elim (Bool-cases (k == j)) [
    | inl same ↦ subst P (ground arith) a.0
    | inr other ↦ get-Values k v m a.1 (ground arith)
  ]

-- A chain whose state and snapshots all have a property.
pub record EachHolds {Db : Type 0} (P : ChainState Db → Type 0) (c : Chain Db) : Type 0 where
  pub head : P c.state
  pub copies : Values P c.snapshots

-- The counter of snapshots is no part of the property.
module _ {Db : Type 0} (P : ChainState Db → Type 0)
    (renumbered : (n : ℕ) (s : ChainState Db) → P s → P (record s { next_snapshot = n })) where
  pub snapshot-EachHolds : (c : Chain Db) → EachHolds P c → EachHolds P (snapshot c).1
  unfolding snapshot
  snapshot-EachHolds c v =
      let copy = renumbered _ c.state v.head in
      record { head = copy; copies = insert-Values P _ _ c.snapshots copy v.copies }

  pub revert-EachHolds : (id : ℕ) (c : Chain Db) → EachHolds P c → EachHolds P (revert id c).1
  unfolding revert
  revert-EachHolds id c v = elim (Option-cases (BTreeMap.get id c.snapshots)) [
    | inl missing ↦ rw (revert, missing) v
    | inr (copy, found) ↦
        rw (revert, found)
          (record {
            head =
                renumbered c.state.next_snapshot copy
                  (get-Values P id copy c.snapshots v.copies found);
            copies = retain-Values P id _ (remove-Values P id c.snapshots v.copies);
          })
  ]
