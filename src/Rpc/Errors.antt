-- ===== src/Rpc/Errors.antt =====
-- The errors that JSON-RPC answers, of src/rpc/mod.rs, with the texts of the errors of the chain.
use hanvil.Prelude.{ℕ, ℤ, pos, negsuc, Option, none, some, [], ◌∷◌, ◌++◌, Bytes, codes}
use hanvil.Word.{digits, decimal, hex}
use hanvil.Units.{UnitError, not_whole, too_large}
use hanvil.Evm.{Rejected, DecodeError, ExecutionResult, Verdict}
use hanvil.Evm.Reverts.{Reason, panics, no_reason, text, panic_code, revert_reason}
use hanvil.Chain.{
  Error, key, decode, rejected, not_impersonated, timestamp_not_after_latest, no_gas_estimate,
  no_such_filter, not_a_log_filter,
}
use hanvil.Rpc.{Value, number, string, Fields, fields, Formats, quantity_u64, hex_data}

pub record RpcError : Type 0 where
  pub code : ℤ
  pub message : Bytes
  pub extra : Option Value

abbrev new : ℤ → Bytes → RpcError
new code message = record { code = code; message = message; extra = none }

abbrev pub parse_error : RpcError
parse_error = new (negsuc 32_699) (codes "Parse error")

abbrev pub invalid_request : RpcError
invalid_request = new (negsuc 32_599) (codes "Invalid Request")

abbrev pub body_too_large : RpcError
body_too_large = new (negsuc 32_599) (codes "request body exceeds 2097152 bytes")

abbrev pub unsupported : Bytes → RpcError
unsupported method = new (negsuc 32_600) (codes "Method " ++ (method ++ codes " not supported"))

abbrev pub unsupported_with_reason : Bytes → Bytes → RpcError
unsupported_with_reason method reason =
    new (negsuc 32_600) (codes "Method " ++ (method ++ (codes " not supported: " ++ reason)))

abbrev pub method_not_found : Bytes → RpcError
method_not_found method = new (negsuc 32_600) (codes "Method " ++ (method ++ codes " not found"))

abbrev pub invalid_params : Bytes → RpcError
invalid_params detail = new (negsuc 32_601) (codes "Invalid params: " ++ detail)

abbrev pub server : Bytes → RpcError
server detail = new (negsuc 31_999) detail

abbrev pub gas_limit_too_high : Bytes → RpcError
gas_limit_too_high detail = new (negsuc 32_004) detail

abbrev pub execution_reverted : Bytes → Bytes → RpcError
execution_reverted message revert_data = record {
  code = pos 3;
  message = message;
  extra = some (string revert_data);
}

abbrev pub error_fields : RpcError → Fields
error_fields e = elim e.extra [
  | none ↦ fields ((codes "code", number e.code) ∷ (codes "message", string e.message) ∷ [])
  | some extra ↦ fields (
      (codes "code", number e.code)
      ∷ (codes "message", string e.message)
      ∷ (codes "data", extra)
      ∷ [])
]

-- The texts of the errors, `{}` of a U256 and `{:?}` of an optional u64 among them.
abbrev pub unit_error_text : UnitError → Bytes
unit_error_text (not_whole wei) =
    digits 78 wei []
    ++ codes " weibar is not a multiple of 10^10 (1 tinybar); the relay rejects such values"
unit_error_text (too_large wei) = digits 78 wei [] ++ codes " weibar exceeds the tinybar range"

abbrev pub optional_text : Option ℕ → Bytes
optional_text none = codes "None"
optional_text (some n) = codes "Some(" ++ (decimal n ++ codes ")")

abbrev pub decode_error_text : DecodeError → Bytes
decode_error_text (DecodeError.envelope e) = codes "transaction bytes could not be decoded: " ++ e
decode_error_text (DecodeError.signature e) = codes "signature could not be recovered: " ++ e
decode_error_text (DecodeError.tx_type n) =
    codes "transaction type "
    ++ (decimal n ++ codes " is not supported; use legacy, EIP-2930 or EIP-1559")
decode_error_text (DecodeError.units e) = unit_error_text e

abbrev pub rejected_text : Rejected → Bytes
rejected_text (Rejected.nonce_too_low tx state) =
    codes "nonce too low: transaction has "
    ++ (decimal tx ++ (codes ", account is at " ++ decimal state))
rejected_text (Rejected.nonce_too_high tx state) =
    codes "nonce too high: transaction has "
    ++ (decimal tx
        ++ (codes ", account is at "
            ++ (decimal state
                ++ codes
                    "; hanvil has no transaction pool, so send in nonce order or await each receipt "
                ++ (0xe2 ∷ 0x80 ∷ 0x94 ∷ codes " Hedera refuses a future nonce too"))))
rejected_text (Rejected.insufficient_funds need have) =
    codes "insufficient funds: gas * price + value needs "
    ++ (digits 78 need [] ++ (codes " tinybar, balance is " ++ digits 78 have []))
rejected_text (Rejected.gas_price_too_low base_fee) =
    codes "gas price below the network gas price of " ++ (decimal base_fee ++ codes " tinybar")
rejected_text (Rejected.chain_id tx expected) =
    codes "chain id mismatch: transaction says "
    ++ (optional_text tx ++ (codes ", this network is " ++ decimal expected))
rejected_text (Rejected.gas_limit_too_high tx most) =
    codes "Transaction gas limit '"
    ++ (quantity_u64 tx ++ (codes "' exceeds block gas limit '" ++ (decimal most ++ codes "'")))
rejected_text (Rejected.other reason) = reason

module _ (formats : Formats) where
  abbrev pub error_text : Error → Bytes
  error_text (key e) = formats.key_error_text e
  error_text (decode e) = decode_error_text e
  error_text (rejected e) = rejected_text e
  error_text (not_impersonated a) =
      formats.display_address a
      ++ codes
          " is neither a predefined account nor impersonated; call anvil_impersonateAccount first"
  error_text (timestamp_not_after_latest requested latest) =
      codes "timestamp "
      ++ (decimal requested ++ (codes " is not after the latest block's " ++ decimal latest))
  error_text (no_gas_estimate gas) =
      codes "execution fails at every gas limit up to " ++ decimal gas
  error_text (no_such_filter id) = codes "filter " ++ (quantity_u64 id ++ codes " not found")
  error_text (not_a_log_filter id) =
      codes "filter "
      ++ (quantity_u64 id ++ codes " watches blocks, not logs; poll it with eth_getFilterChanges")

  -- `From<state::Error>`
  unfoldable pub of_error : Error → RpcError
  unfolding decimal quantity_u64
  of_error (decode e) = invalid_params (decode_error_text e)
  of_error (rejected (Rejected.other reason)) = server reason
  of_error (rejected (Rejected.gas_limit_too_high tx most)) =
      gas_limit_too_high (rejected_text (Rejected.gas_limit_too_high tx most))
  of_error (rejected e) = server (rejected_text e)
  of_error e = server (error_text e)

  -- `reason` of a failed call; none where reading it panics.
  abbrev failed_with : Bytes → Reason → Option RpcError
  failed_with output panics = none
  failed_with output no_reason =
      some (execution_reverted (codes "execution reverted") (hex_data output))
  failed_with output (text t) =
      some (execution_reverted (codes "execution reverted: " ++ t) (hex_data output))
  failed_with output (panic_code n) =
      some (execution_reverted (codes "execution reverted: panic code " ++ hex n) (hex_data output))

  unfoldable pub from_failed_execution : ExecutionResult → Option RpcError
  unfolding revert_reason hex hex_data
  from_failed_execution result = elim result.verdict [
    | Verdict.create a output ↦ some (server (codes "unexpected success"))
    | Verdict.call output ↦ some (server (codes "unexpected success"))
    | Verdict.revert output ↦ failed_with output (revert_reason formats.from_utf8_lossy output)
    | Verdict.halt reason ↦ some (server reason)
  ]
