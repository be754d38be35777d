-- ===== src/Rpc/Dispatch.antt =====
-- One JSON-RPC request, and a batch of them, of src/rpc/mod.rs.
pub mod Order
pub mod Answers
use hanvil.Prelude.{ℕ, ◌+◌, Bool, true, false, Option, none, some, List, [], ◌∷◌, Bytes, codes}
use hanvil.Prelude.Result.{Result, ok, err}
use hanvil.Time.{Timestamp}
use hanvil.Evm.{Externals}
use hanvil.Chain.{Chain}
use hanvil.Rpc.{
  Value, null, string, array, object, Values, nil, cons, items, values, fields, member, Formats,
}
use hanvil.Rpc.Errors.{
  RpcError, error_fields, parse_error, body_too_large, invalid_request, invalid_params,
}
use hanvil.Rpc.Params.{param_text}
use hanvil.Rpc.Eth.Sending.{Answer, answered, panicked, unfinished}
use hanvil.Rpc.Eth.{eth_call}
use hanvil.Rpc.Cheats.{handles, cheat_call}

abbrev pub error_response : Value → RpcError → Value
error_response id e = object (
    fields (
      (codes "jsonrpc", string (codes "2.0"))
      ∷ (codes "id", id)
      ∷ (codes "error", object (error_fields e))
      ∷ []))

abbrev pub result_response : Value → Value → Value
result_response id v =
    object (
      fields
        ((codes "jsonrpc", string (codes "2.0")) ∷ (codes "id", id) ∷ (codes "result", v) ∷ []))

-- The id of a request, or `null`.
abbrev pub request_id : Value → Value
request_id request = elim (member (codes "id") request) [ none ↦ null | some id ↦ id ]

abbrev pub params_of : Option Value → Result RpcError (List Value)
params_of none = ok []
params_of (some null) = ok []
params_of (some (array vs)) = ok (items vs)
params_of (some v) = err (invalid_params (codes "params must be an array"))

-- No response comes from a handler that panics.
abbrev pub response : Value → Answer → Option Value
response id (answered (ok v)) = some (result_response id v)
response id (answered (err e)) = some (error_response id e)
response id panicked = none
response id unfinished = none

module _ (formats : Formats) {Db : Type 0} (ext : Externals Db) (now : Timestamp) where
  abbrev pub routed : Bool → Bytes → List Value → Chain Db → Chain Db × Answer
  routed true method params c =
      let (c', answer) = cheat_call formats ext now method params c in (c', answered answer)
  routed false method params c =
      let (s, answer) = eth_call formats ext now method params c.state in
      (record c { state = s }, answer)

  abbrev pub with_params :
      Value → Bytes → Result RpcError (List Value) → Chain Db → Chain Db × Option Value
  with_params id method (err e) c = (c, some (error_response id e))
  with_params id method (ok params) c =
      let (c', answer) = routed (handles method) method params c in (c', response id answer)

  unfoldable pub dispatch : Value → Chain Db → Chain Db × Option Value
  unfolding handles cheat_call eth_call
  dispatch request c = elim (param_text (member (codes "method") request)) [
    | none ↦ (c, some (error_response (request_id request) invalid_request))
    | some method ↦
        with_params (request_id request) method (params_of (member (codes "params") request)) c
  ]

-- What the body of a request holds.
pub data RequestBody : Type 0 where
  too_large unreadable : RequestBody
  parsed : Value → RequestBody

-- `clock n` is the time at which the n-th request of a batch is served.
module _ (formats : Formats) {Db : Type 0} (ext : Externals Db) (clock : ℕ → Timestamp) where
  -- The requests of a batch, in their order; a panic ends it.
  unfoldable pub batch : ℕ → Values → Chain Db → Chain Db × Option (List Value)
  unfolding dispatch
  batch n nil c = (c, some [])
  batch n (cons request rest) c =
      let first = dispatch formats ext (clock n) request c in
      elim first.1 [
        | none ↦ (first.0, none)
        | some answer ↦
            (let others = batch (n + 1) rest first.0 in
              (others.0, elim others.1 [ none ↦ none | some vs ↦ some (answer ∷ vs) ]))
      ]

  abbrev pub batched : Chain Db × Option (List Value) → Chain Db × Option Value
  batched (c, none) = (c, none)
  batched (c, some vs) = (c, some (array (values vs)))

  unfoldable pub handle_body : RequestBody → Chain Db → Chain Db × Option Value
  unfolding dispatch batch
  handle_body too_large c = (c, some (error_response null body_too_large))
  handle_body unreadable c = (c, some (error_response null parse_error))
  handle_body (parsed (array vs)) c = batched (batch 0 vs c)
  handle_body (parsed request) c = dispatch formats ext (clock 0) request c
