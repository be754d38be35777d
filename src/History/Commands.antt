-- ===== src/History/Commands.antt =====
-- What every command of a node keeps, of its state and of the snapshots.
use hanvil.Prelude.{ℕ, Bool, true, false, List, [], ◌∷◌}
use hanvil.Maps.BTreeMap.{BTreeMap}
use hanvil.Chain.{ChainState, Chain}
use hanvil.Chain.Genesis.{reindex}
use hanvil.Chain.Snapshots.Copies.{Values, EachHolds, snapshot-EachHolds, revert-EachHolds}
use hanvil.Evm.{Externals}
use hanvil.Wire.Proto.{Protobuf}
use hanvil.Wire.Signatures.{Curves}
use hanvil.History.{
  Request, is_restart, Command, asked, snapshot_taken, reverted, serve, reread, obey, serve_all,
}

module _ {Db : Type 0} (ext : Externals Db) (proto : Protobuf) (curves : Curves) (verify : Bool)
    (Allowed : Request → ChainState Db → Type 0) where
  -- Each request is allowed where the node stands when it arrives.
  abbrev pub IsAllowed : Command → Chain Db → Type 0
  IsAllowed (asked r) c = Allowed r c.state
  IsAllowed _ c = Unit {0}

  abbrev pub AreAllowed : List Command → Chain Db → Type 0
  AreAllowed [] c = Unit {0}
  AreAllowed (command ∷ rest) c =
      IsAllowed command c × AreAllowed rest (obey ext proto curves verify command c)

  pub always-AreAllowed :
      ((r : Request) (s : ChainState Db) → Allowed r s)
      → (commands : List Command) (c : Chain Db) → AreAllowed commands c
  always-AreAllowed always [] c = tt
  always-AreAllowed always (asked r ∷ rest) c =
      (always r c.state, always-AreAllowed always rest (obey ext proto curves verify (asked r) c))
  always-AreAllowed always (snapshot_taken ∷ rest) c =
      (tt, always-AreAllowed always rest (obey ext proto curves verify snapshot_taken c))
  always-AreAllowed always (reverted id ∷ rest) c =
      (tt, always-AreAllowed always rest (obey ext proto curves verify (reverted id) c))

module _ {Db : Type 0} (ext : Externals Db) (proto : Protobuf) (curves : Curves) (verify : Bool)
    (P : ChainState Db → Type 0)
    (renumbered : (n : ℕ) (s : ChainState Db) → P s → P (record s { next_snapshot = n }))
    (reindexed : (s : ChainState Db) → P s → P (reindex s))
    (Allowed : Request → ChainState Db → Type 0)
    (served : (r : Request) (s : ChainState Db)
      → P s
      → Allowed r s
      → P (serve ext proto curves verify r s)) where
  reread-Values :
      (b : Bool) (copies : BTreeMap (ChainState Db))
      → Values P copies
      → Values P (reread ext proto curves verify b copies)
  reread-Values false copies v = v
  reread-Values true [] v = tt
  reread-Values true ((id, s) ∷ copies) v = (reindexed s v.0, reread-Values true copies v.1)

  obey-EachHolds :
      (command : Command) (c : Chain Db)
      → IsAllowed ext proto curves verify Allowed command c
      → EachHolds P c
      → EachHolds P (obey ext proto curves verify command c)
  unfolding obey
  obey-EachHolds (asked r) c allowed v = record {
    head = served r c.state v.head allowed;
    copies = reread-Values (is_restart r) c.snapshots v.copies;
  }
  obey-EachHolds snapshot_taken c allowed v = snapshot-EachHolds P renumbered c v
  obey-EachHolds (reverted id) c allowed v = revert-EachHolds P renumbered id c v

  pub serve_all-EachHolds :
      (commands : List Command) (c : Chain Db)
      → AreAllowed ext proto curves verify Allowed commands c
      → EachHolds P c
      → EachHolds P (serve_all ext proto curves verify commands c)
  unfolding serve_all
  serve_all-EachHolds [] c allowed v = v
  serve_all-EachHolds (command ∷ rest) c (now, later) v =
      serve_all-EachHolds rest (obey ext proto curves verify command c) later
        (obey-EachHolds command c now v)
