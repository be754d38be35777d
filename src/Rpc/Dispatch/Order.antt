-- ===== src/Rpc/Dispatch/Order.antt =====
-- Whatever is asked over JSON-RPC, the chain stays orderly.
use hanvil.Prelude.{
  ℕ, ◌+◌, Bool, true, false, Option, none, some, List, Bytes, codes, Option-cases, inl, inr,
}
use hanvil.Prelude.Result.{Result, ok, err}
use hanvil.Time.{Timestamp}
use hanvil.Evm.{Externals}
use hanvil.Chain.{Chain}
use hanvil.History.Journal.{kept-IsOrderly}
use hanvil.Rpc.{Value, Values, nil, cons, array, object, member, Formats}
use hanvil.Rpc.Errors.{RpcError}
use hanvil.Rpc.Params.{param_text}
use hanvil.Rpc.Cheats.{handles}
use hanvil.Rpc.Cheats.Copies.{AreOrderly}
use hanvil.Rpc.Cheats.Effects.{cheat_call-AreOrderly}
use hanvil.Rpc.Eth.Effects.{eth_call-KeepsJournal}
use hanvil.Rpc.Dispatch.{
  RequestBody, too_large, unreadable, parsed, request_id, params_of, routed, with_params, dispatch,
  batch, batched, handle_body,
}

module _ (formats : Formats) {Db : Type 0} (ext : Externals Db) where
  routed-AreOrderly :
      (now : Timestamp) (b : Bool) (method : Bytes) (params : List Value) (c : Chain Db)
      → AreOrderly c
      → AreOrderly (routed formats ext now b method params c).0
  routed-AreOrderly now true method params c v =
      cheat_call-AreOrderly formats ext now method params c v
  routed-AreOrderly now false method params c v = record {
    head =
        kept-IsOrderly c.state _ (eth_call-KeepsJournal formats ext now method params c.state)
          v.head;
    copies = v.copies;
  }

  with_params-AreOrderly :
      (now : Timestamp) (id : Value) (method : Bytes) (m : Result RpcError (List Value))
      (c : Chain Db)
      → AreOrderly c
      → AreOrderly (with_params formats ext now id method m c).0
  with_params-AreOrderly now id method (err e) c v = v
  with_params-AreOrderly now id method (ok params) c v =
      routed-AreOrderly now (handles method) method params c v

  dispatch-AreOrderly :
      (now : Timestamp) (request : Value) (c : Chain Db)
      → AreOrderly c
      → AreOrderly (dispatch formats ext now request c).0
  unfolding dispatch
  dispatch-AreOrderly now request c v =
      elim (Option-cases (param_text (member (codes "method") request))) [
        | inl missing ↦ rw (dispatch, missing) v
        | inr (method, found) ↦
            rw (dispatch, found)
              (with_params-AreOrderly now (request_id request) method
                (params_of (member (codes "params") request)) c v)
      ]

module _ (formats : Formats) {Db : Type 0} (ext : Externals Db) (clock : ℕ → Timestamp) where
  batch-AreOrderly :
      (n : ℕ) (requests : Values) (c : Chain Db)
      → AreOrderly c
      → AreOrderly (batch formats ext clock n requests c).0
  unfolding batch
  batch-AreOrderly n nil c v = v
  batch-AreOrderly n (cons request rest) c v =
      let first = dispatch formats ext (clock n) request c in
      let after = dispatch-AreOrderly formats ext (clock n) request c v in
      elim (Option-cases first.1) [
        | inl broken ↦ rw (batch, broken) after
        | inr (answer, e) ↦ rw (batch, e) (batch-AreOrderly (n + 1) rest first.0 after)
      ]

  batched-AreOrderly :
      (o : Chain Db × Option (List Value))
      → AreOrderly o.0
      → AreOrderly (batched formats ext clock o).0
  batched-AreOrderly (c, none) v = v
  batched-AreOrderly (c, some vs) v = v

  -- Whatever body a client posts, a batch or what is no request at all included: where the state
  -- and the snapshots are orderly before, they are after. No two HAPI records have one transaction
  -- id, the index by id is the one that a restart rebuilds, and the blocks are linked from genesis,
  -- in the state and in every snapshot that `evm_revert` can bring back.
  pub handle_body-AreOrderly :
      (body : RequestBody) (c : Chain Db)
      → AreOrderly c
      → AreOrderly (handle_body formats ext clock body c).0
  unfolding handle_body
  handle_body-AreOrderly too_large c v = v
  handle_body-AreOrderly unreadable c v = v
  handle_body-AreOrderly (parsed (array vs)) c v =
      batched-AreOrderly (batch formats ext clock 0 vs c) (batch-AreOrderly 0 vs c v)
  handle_body-AreOrderly (parsed (object fs)) c v =
      dispatch-AreOrderly formats ext (clock 0) (object fs) c v
  handle_body-AreOrderly (parsed request) c v =
      dispatch-AreOrderly formats ext (clock 0) request c v
