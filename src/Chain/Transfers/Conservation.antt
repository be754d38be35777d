-- ===== src/Chain/Transfers/Conservation.antt =====
-- `apply_transfer` moves tinybar and neither makes nor loses any.
use hanvil.Prelude.{
  ℕ, ◌+◌, ◌≤◌, ◌<◌, ◌≡◌, refl, ◌∙◌, ap, ℤ, false, List, [], arith, any, length, none,
}
use hanvil.Prelude.Result.{ok, ◌>>=◌, >>=-eq-ok}
use hanvil.Word.{u64_mod, unsigned_abs}
use hanvil.Maps.BTreeMap
use hanvil.Time.{Timestamp}
use hanvil.Records.{AccountRef}
use hanvil.Chain.{ChainState, fee_collector}
use hanvil.Chain.Supply.{supply, IsSound}
use hanvil.Chain.Transfers.{
  Resolved, resolve, sum_amounts, sort, has_equal_neighbours, is_unfunded, apply_legs,
  create_hollow, check_transfer, check_resolved,
}
use hanvil.Chain.Transfers.Distinct.{sort-Distinct}
use hanvil.Chain.Transfers.Legs.{
  credits, debits, ids_of, apply_legs-supply, apply_legs-is_some, apply_legs_next_id, Created,
  create_hollow-Created,
}
use hanvil.Chain.Transfers.Resolution.{
  Small, Parts, resolve-Parts, legs-IsCovered, sum_amounts_parts,
}

module _ {Db : Type 0} (s : ChainState Db) where
  -- What the checks of a transfer establish of the lists that are then applied.
  pub record IsChecked (amounts : List (AccountRef × ℤ)) (parts : Resolved) : Type 0 where
    pub balanced : unsigned_abs (sum_amounts amounts) ≡ 0
    pub resolved : resolve s amounts ([], []) ≡ ok parts
    pub apart : has_equal_neighbours (sort (ids_of (parts.0))) ≡ false
    pub funded : any (is_unfunded s) (parts.0) ≡ false

  checked_sum :
      (amounts : List (AccountRef × ℤ)) (parts : Resolved)
      → check_transfer s amounts ≡ ok parts
      → (unsigned_abs (sum_amounts amounts) ≡ 0)
        × ((resolve s amounts ([], []) >>= check_resolved s) ≡ ok parts)
  unfolding check_transfer
  checked_sum amounts parts h = (ground arith, ground arith)

  checked_parts :
      (mid parts : Resolved)
      → check_resolved s mid ≡ ok parts
      → (mid ≡ parts)
        × (has_equal_neighbours (sort (ids_of (parts.0))) ≡ false)
        × (any (is_unfunded s) (parts.0) ≡ false)
  unfolding check_resolved
  checked_parts (res, cre) parts h = (ground arith, ground arith, ground arith)

  pub check_transfer-IsChecked :
      (amounts : List (AccountRef × ℤ)) (parts : Resolved)
      → check_transfer s amounts ≡ ok parts
      → IsChecked amounts parts
  check_transfer-IsChecked amounts parts h =
      let (balanced, rest) = checked_sum amounts parts h in
      let (mid, found, checked) = >>=-eq-ok (resolve s amounts ([], [])) (check_resolved s) rest in
      let (same, apart, funded) = checked_parts mid parts checked in
      record { balanced = balanced; resolved = found ∙ ap ok same; apart = apart; funded = funded }

  -- The state that an accepted transfer leaves.
  abbrev after : Timestamp → Resolved → ChainState Db
  after consensus parts = (create_hollow consensus (parts.1) (apply_legs (parts.0) s)).0

  empty-Parts : Parts s ([], []) 0 0 0
  empty-Parts = record {
    paid_by = refl;
    received_by = refl;
    credits_only = refl;
    counted = omega arith;
    legs = tt;
  }

  module _ (amounts : List (AccountRef × ℤ)) (parts : Resolved) (consensus : Timestamp)
      (sound : IsSound s) (small : Small amounts) (room : s.next_id + length amounts < u64_mod)
      (checked : IsChecked amounts parts) where
    held-Parts : Parts s parts (0 + debits amounts) (0 + credits amounts) (0 + length amounts)
    held-Parts = resolve-Parts s amounts ([], []) parts 0 0 0 small empty-Parts checked.resolved

    legs_supply : supply (apply_legs (parts.0) s) + debits (parts.0) ≡ supply s + credits (parts.0)
    legs_supply =
        apply_legs-supply (parts.0) s (sort-Distinct (ids_of (parts.0)) checked.apart)
          (legs-IsCovered s (parts.0) sound.bounded held-Parts.legs checked.funded)

    legs_fresh :
        (i : ℕ)
        → (apply_legs (parts.0) s).next_id ≤ i
        → BTreeMap.get i (apply_legs (parts.0) s).accounts ≡ none
    legs_fresh i h =
        ground
          (arith, apply_legs_next_id (parts.0) s, apply_legs-is_some (parts.0) s i, sound.fresh i)

    created : Created consensus (parts.1) (apply_legs (parts.0) s)
    created =
        create_hollow-Created consensus (parts.1) (apply_legs (parts.0) s)
          (omega (arith, sound.user_ids, apply_legs_next_id (parts.0) s))
          (omega (arith, held-Parts.counted, apply_legs_next_id (parts.0) s)) legs_fresh

    pub after-supply : supply (after consensus parts) ≡ supply s
    after-supply = omega (
      arith,
      created.added,
      legs_supply,
      held-Parts.paid_by,
      held-Parts.received_by,
      held-Parts.credits_only,
      sum_amounts_parts amounts,
      checked.balanced,
    )

    pub after-IsSound : IsSound (after consensus parts)
    after-IsSound = record {
      fresh = created.fresh;
      user_ids = created.user_ids;
      collector =
          created.stay fee_collector
            (apply_legs-is_some (parts.0) s fee_collector ∙ sound.collector);
      bounded = omega (arith, after-supply, sound.bounded);
    }
