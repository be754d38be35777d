-- ===== src/Rpc/Dispatch/Answers.antt =====
-- What a client gets back: an answer for each request, with its id.
use hanvil.Prelude.{
  ℕ, ◌+◌, ◌≡◌, refl, not, Option, none, some, List, [], ◌∷◌, Bytes, codes, Option-cases, inl, inr,
  is_some, subst,
}
use hanvil.Prelude.Result.{Result, ok, err}
use hanvil.Time.{Timestamp}
use hanvil.Evm.{Externals}
use hanvil.Chain.{Chain}
use hanvil.Rpc.{Value, Values, nil, cons, items, string, member, Formats}
use hanvil.Rpc.Errors.{RpcError, invalid_request}
use hanvil.Rpc.Params.{param_text}
use hanvil.Rpc.Cheats.{handles}
use hanvil.Rpc.Eth.Sending.{Answer, answered, panicked, unfinished}
use hanvil.Rpc.Dispatch.{
  error_response, result_response, request_id, params_of, response, routed, with_params, dispatch,
  batch,
}

-- An answer of version 2.0 with the id of its request, and with a result or an error, not both.
pub record IsAnswer (request answer : Value) : Type 0 where
  pub version : member (codes "jsonrpc") answer ≡ some (string (codes "2.0"))
  pub same_id : member (codes "id") answer ≡ some (request_id request)
  pub one_of :
      is_some (member (codes "result") answer) ≡ not (is_some (member (codes "error") answer))

-- The answers to a list of requests, one to each in its place.
abbrev pub AreAnswers : List Value → List Value → Type 0
AreAnswers [] [] = Unit {0}
AreAnswers [] (v ∷ vs) = ⊥
AreAnswers (r ∷ rs) [] = ⊥
AreAnswers (r ∷ rs) (v ∷ vs) = IsAnswer r v × AreAnswers rs vs

error-IsAnswer :
    (request : Value) (e : RpcError) → IsAnswer request (error_response (request_id request) e)
error-IsAnswer request e = record { version = refl; same_id = refl; one_of = refl }

result-IsAnswer : (request v : Value) → IsAnswer request (result_response (request_id request) v)
result-IsAnswer request v = record { version = refl; same_id = refl; one_of = refl }

value_eq : {v w : Value} → (let o : Option Value = some v in o ≡ some w) → v ≡ w
value_eq h = cc

list_eq : {v w : List Value} → (let o : Option (List Value) = some v in o ≡ some w) → v ≡ w
list_eq h = cc

response-IsAnswer :
    (request answer : Value) (a : Answer)
    → response (request_id request) a ≡ some answer
    → IsAnswer request answer
response-IsAnswer request answer (answered (ok v)) h =
    subst (IsAnswer request) (value_eq h) (result-IsAnswer request v)
response-IsAnswer request answer (answered (err e)) h =
    subst (IsAnswer request) (value_eq h) (error-IsAnswer request e)
response-IsAnswer request answer panicked h = cc
response-IsAnswer request answer unfinished h = cc

module _ (formats : Formats) {Db : Type 0} (ext : Externals Db) where
  with_params-IsAnswer :
      (now : Timestamp) (request answer : Value) (method : Bytes) (m : Result RpcError (List Value))
      (c : Chain Db)
      → (with_params formats ext now (request_id request) method m c).1 ≡ some answer
      → IsAnswer request answer
  with_params-IsAnswer now request answer method (err e) c h =
      subst (IsAnswer request) (value_eq h) (error-IsAnswer request e)
  with_params-IsAnswer now request answer method (ok params) c h =
      response-IsAnswer request answer (routed formats ext now (handles method) method params c).1 h

  dispatch-IsAnswer :
      (now : Timestamp) (request answer : Value) (c : Chain Db)
      → (dispatch formats ext now request c).1 ≡ some answer
      → IsAnswer request answer
  unfolding dispatch
  dispatch-IsAnswer now request answer c h =
      elim (Option-cases (param_text (member (codes "method") request))) [
        | inl missing ↦
            subst (IsAnswer request) (value_eq (rw (dispatch, missing) at h))
              (error-IsAnswer request invalid_request)
        | inr (method, found) ↦
            with_params-IsAnswer now request answer method
              (params_of (member (codes "params") request)) c (rw (dispatch, found) at h)
      ]

module _ (formats : Formats) {Db : Type 0} (ext : Externals Db) (clock : ℕ → Timestamp) where
  -- Where a batch is answered, each of its requests has one answer, in the order of the requests: of
  -- version 2.0, with the id of its request, or `null` for one without, and with either a result or
  -- an error.
  pub batch-AreAnswers :
      (n : ℕ) (requests : Values) (c : Chain Db) (answers : List Value)
      → (batch formats ext clock n requests c).1 ≡ some answers
      → AreAnswers (items requests) answers
  unfolding batch
  batch-AreAnswers n nil c answers h = subst (AreAnswers []) (list_eq h) tt
  batch-AreAnswers n (cons request rest) c answers h =
      let first = dispatch formats ext (clock n) request c in
      elim (Option-cases first.1) [
        | inl broken ↦ absurd (no_list answers (rw (batch, broken) at h))
        | inr (answer, e) ↦ elim (Option-cases (batch formats ext clock (n + 1) rest first.0).1) [
          | inl stopped ↦ absurd (no_list answers (rw (batch, stopped) at (rw (batch, e) at h)))
          | inr (others, k) ↦
              subst (AreAnswers (request ∷ items rest))
                (list_eq (rw (batch, k) at (rw (batch, e) at h)))
                (
                  dispatch-IsAnswer formats ext (clock n) request answer c e,
                  batch-AreAnswers (n + 1) rest first.0 others k,
                )
        ]
      ]
    where
      no_list : (vs : List Value) → (let o : Option (List Value) = none in o ≡ some vs) → ⊥
      no_list vs e = cc
