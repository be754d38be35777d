-- ===== src/Chain/Snapshots.antt =====
-- `evm_snapshot` and `evm_revert`, of src/state/mod.rs.
pub mod Copies
pub mod Retained
pub mod Restore
use hanvil.Prelude.{ℕ, Bool, true, false, none, some, ltb, keep}
use hanvil.Word.{add_u64}
use hanvil.Maps.BTreeMap.{BTreeMap}
use hanvil.Maps.BTreeMap
use hanvil.Chain.{Chain}

-- `retain(|k, _| *k < id)`
unfoldable pub retain_below {ℓ} : {V : Type ℓ} → ℕ → BTreeMap V → BTreeMap V
retain_below {V} id m = keep (λ (p : ℕ × V). ltb p.0 id) m

module _ {Db : Type 0} where
  -- The counter rises before the copy is taken, so the copy has it too.
  unfoldable pub snapshot : Chain Db → ℕ × Chain Db
  unfolding add_u64
  snapshot c =
      let id = c.state.next_snapshot in
      let copy = record (c.state) { next_snapshot = add_u64 id 1 } in
      (id, record { state = copy; snapshots = BTreeMap.insert id copy c.snapshots })

  -- The copy is restored, it and every later one are forgotten, and the counter is kept.
  unfoldable pub revert : ℕ → Chain Db → Bool × Chain Db
  unfolding retain_below
  revert id c = elim (BTreeMap.get id c.snapshots) [
    | none ↦ (false, c)
    | some restored ↦ (
      true,
      record {
        state = record restored { next_snapshot = c.state.next_snapshot };
        snapshots = retain_below id (BTreeMap.remove id c.snapshots);
      },
    )
  ]
