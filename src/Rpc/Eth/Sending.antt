-- ===== src/Rpc/Eth/Sending.antt =====
-- Sending a transaction over JSON-RPC, of src/rpc/eth.rs: what is refused is kept.
use hanvil.Prelude.{ℕ, ◌/◌, Option, none, some, Bytes, codes}
use hanvil.Prelude.Result.{Result, ok, err, map_err, ◌>>=◌}
use hanvil.Units.{Address}
use hanvil.Time.{Timestamp}
use hanvil.Blocks.{B256, UnsignedTx, CallRequest}
use hanvil.Records.{ethereum_transaction}
use hanvil.Evm.{Externals, decode_signed}
use hanvil.Chain.{ChainState, Error, block_gas_limit, account_by_evm}
use hanvil.Chain.Refusals.{reject}
use hanvil.Chain.Execution.{send_raw, send_unsigned}
use hanvil.Chain.Calls.{nonce_by_evm}
use hanvil.Rpc.{Value, string, member, Formats, hash}
use hanvil.Rpc.Errors.{RpcError, invalid_params, of_error}
use hanvil.Rpc.Params.{parse_address, parse_bytes, parse_call, parse_optional_nonce}

-- A handler's answer. A panic ends the connection's task; `unfinished` is an estimate that runs out
-- of its fuel, which none does.
pub data Answer : Type 0 where
  answered : Result RpcError Value → Answer
  panicked unfinished : Answer

abbrev pub failed : RpcError → Answer
failed e = answered (err e)

module _ (formats : Formats) {Db : Type 0} (ext : Externals Db) (now : Timestamp) where
  -- Keep what the node would not mine.
  unfoldable pub refused : Option Address → RpcError → ChainState Db → ChainState Db
  unfolding reject account_by_evm
  refused sender e s =
      let payer : Option ℕ = elim sender [
        | none ↦ none
        | some a ↦ elim (account_by_evm s a) [ none ↦ none | some found ↦ some found.id ]
      ] in
      reject
        (record {
          at = now;
          kind = some ethereum_transaction;
          payer = payer;
          status = none;
          from = sender;
          message = e.message;
        })
        s

  -- `outcome.map_err(|error| refused(chain, sender, error, now))`
  abbrev pub settled :
      Option Address → ChainState Db × Result RpcError B256 → ChainState Db × Answer
  settled sender (s, ok h) = (s, answered (ok (string (hash h))))
  settled sender (s, err e) = (refused sender e s, failed e)

  abbrev pub sent : ChainState Db × Result Error B256 → ChainState Db × Result RpcError B256
  sent (s, outcome) = (s, map_err (of_error formats) outcome)

  abbrev or_default : Option ℕ → ℕ → ℕ
  or_default none d = d
  or_default (some n) d = n

  -- What `eth_sendTransaction` sends.
  abbrev unsigned_of : CallRequest → Address → Option ℕ → ChainState Db → UnsignedTx
  unsigned_of request from nonce s = record {
    from = from;
    to = request.to;
    nonce = or_default nonce (nonce_by_evm ext from s);
    gas_limit = or_default request.gas (block_gas_limit / 2);
    gas_price = or_default request.gas_price s.gas_price;
    value = request.value;
    input = request.input;
  }

  abbrev sender_needed : Option Address → Result RpcError Address
  sender_needed none = err (invalid_params (codes "eth_sendTransaction needs `from`"))
  sender_needed (some from) = ok from

  abbrev pub unsigned_tx : Option Value → ChainState Db → Result RpcError UnsignedTx
  unsigned_tx param s = do
    request ← parse_call formats param
    from ← sender_needed request.from
    nonce ← parse_optional_nonce formats param
    ok (unsigned_of request from nonce s)

  abbrev pub raw_sender : Result RpcError Bytes → Option Address
  raw_sender (err e) = none
  raw_sender (ok raw) = elim (decode_signed ext raw) [ err e ↦ none | ok d ↦ some d.from ]

  abbrev pub call_sender : Option Value → Option Address
  call_sender none = none
  call_sender (some v) = elim (member (codes "from") v) [
    | none ↦ none
    | some from ↦ elim (parse_address formats (some from)) [ err e ↦ none | ok a ↦ some a ]
  ]

  unfoldable pub send_raw_answer : Option Value → ChainState Db → ChainState Db × Answer
  unfolding parse_bytes send_raw refused decode_signed
  send_raw_answer param s =
      let raw = parse_bytes formats param (codes "transaction") in
      settled (raw_sender raw)
        (elim raw [ err e ↦ (s, err e) | ok bytes ↦ sent (send_raw ext bytes now s) ])

  unfoldable pub send_unsigned_answer : Option Value → ChainState Db → ChainState Db × Answer
  unfolding parse_call parse_optional_nonce send_unsigned refused nonce_by_evm parse_address
  send_unsigned_answer param s = settled (call_sender param) (elim (unsigned_tx param s) [
    | err e ↦ (s, err e)
    | ok tx ↦ sent (send_unsigned ext tx now s)
  ])
