-- ===== src/Rpc/Cheats/Copies.antt =====
-- Snapshots that are orderly, and stay so.
use hanvil.Prelude.{ℕ}
use hanvil.Chain.{Chain}
use hanvil.Chain.Snapshots.{snapshot, revert}
use hanvil.Chain.Snapshots.Copies.{EachHolds, snapshot-EachHolds, revert-EachHolds}
use hanvil.History.Journal.{IsOrderly, renumbered-IsOrderly}

module _ {Db : Type 0} where
  -- A chain whose state and snapshots are orderly.
  abbrev pub AreOrderly : Chain Db → Type 0
  AreOrderly c = EachHolds IsOrderly c

  pub snapshot-AreOrderly : (c : Chain Db) → AreOrderly c → AreOrderly (snapshot c).1
  snapshot-AreOrderly c = snapshot-EachHolds IsOrderly renumbered-IsOrderly c

  pub revert-AreOrderly : (id : ℕ) (c : Chain Db) → AreOrderly c → AreOrderly (revert id c).1
  revert-AreOrderly id c = revert-EachHolds IsOrderly renumbered-IsOrderly id c
