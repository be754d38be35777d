-- ===== src/Rpc/Cheats/Restore.antt =====
-- `evm_snapshot` and `evm_revert` over JSON-RPC.
use hanvil.Prelude.{ℕ, ◌<◌, ◌+◌, arith, ◌≡◌, refl, ◌∙◌, ap, sym, true, [], ◌∷◌, codes, List}
use hanvil.Prelude.Result.{Result, ok, ok_eq}
use hanvil.Word.{u64_mod}
use hanvil.Time.{Timestamp}
use hanvil.Evm.{Externals}
use hanvil.Chain.{Chain}
use hanvil.Chain.Snapshots.{snapshot, revert}
use hanvil.Chain.Snapshots.Restore.{AreNumbered, LeavesOlder, revert-snapshot}
use hanvil.Rpc.{Value, bool, string, Formats, quantity_u64}
use hanvil.Rpc.Errors.{RpcError}
use hanvil.Rpc.Params.RoundTrip.{ReadsHex, parse_u64-quantity_u64}
use hanvil.Rpc.Cheats.{cheat, cheat_of, cheat_call}

module _ (formats : Formats) {Db : Type 0} (ext : Externals Db) (now : Timestamp) where
  answered_id :
      (n : ℕ) (id : Value)
      → (let m : Result RpcError Value = ok (string (quantity_u64 n)) in m ≡ ok id)
      → string (quantity_u64 n) ≡ id
  answered_id n id h = ok_eq h

  reverted_to :
      (n : ℕ) (c : Chain Db)
      → ReadsHex formats
      → n < u64_mod
      → cheat_call formats ext now (codes "evm_revert") (string (quantity_u64 n) ∷ []) c
        ≡ ((revert n c).1, ok (bool (revert n c).0))
  unfolding cheat_call cheat_of cheat
  reverted_to n c reads small =
      rw (parse_u64-quantity_u64 formats n (codes "snapshot id") reads small, cheat) refl

  -- Where the parser reads hexadecimal digits, snapshots stand in the order of their ids, below the
  -- counter, and the counter has room for one more: let `evm_snapshot` answer an id, let the state
  -- change to any other, and let newer snapshots be taken, reverted to and forgotten, but neither
  -- this one nor an older one. `evm_revert` with that very answer as its parameter answers true, and
  -- gives back every field of the state at the snapshot but the counter of snapshot ids, which is
  -- not set back, and the snapshots as they were before.
  pub evm_revert-evm_snapshot :
      (c after : Chain Db) (id : Value) (params : List Value)
      → ReadsHex formats
      → c.state.next_snapshot + 1 < u64_mod
      → AreNumbered c
      → (cheat_call formats ext now (codes "evm_snapshot") params c).1 ≡ ok id
      → LeavesOlder (cheat_call formats ext now (codes "evm_snapshot") params c).0 after
      → cheat_call formats ext now (codes "evm_revert") (id ∷ []) after ≡ (
        record {
          state = record (c.state) { next_snapshot = after.state.next_snapshot };
          snapshots = c.snapshots;
        },
        ok (bool true),
      )
  unfolding cheat_call cheat_of cheat snapshot
  evm_revert-evm_snapshot c after id params reads room v taken f =
      ap (λ i. cheat_call formats ext now (codes "evm_revert") (i ∷ []) after)
        (sym (answered_id c.state.next_snapshot id taken))
      ∙ (reverted_to c.state.next_snapshot after reads (omega (arith, room))
          ∙ ap (λ r. (r.1, ok (bool r.0))) (revert-snapshot c after room v f))
