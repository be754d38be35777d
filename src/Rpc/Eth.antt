-- ===== src/Rpc/Eth.antt =====
-- The `eth_*`, `net_*` and `web3_*` methods, of src/rpc/eth.rs.
pub mod Reads
pub mod Methods
pub mod Sending
pub mod Effects
pub mod Refusals
use hanvil.Prelude.{
  ℕ, ◌/◌, ◌≤◌, Bool, true, false, Option, none, some, List, [], ◌∷◌, Bytes, codes, get_elem?, map,
  if◌then◌else◌, any,
}
use hanvil.Prelude.Result.{Result, ok, err, map_err, ◌>>=◌, ◌>>◌}
use hanvil.Word.{u64_max}
use hanvil.Units.{Address}
use hanvil.Time.{Timestamp}
use hanvil.Accounts.{Account}
use hanvil.Blocks.{B256, UnsignedTx, CallRequest, LogFilter, FilterChanges}
use hanvil.Records.{ethereum_transaction}
use hanvil.Evm.{Externals, Verdict, ExecutionResult, is_success, decode_signed}
use hanvil.Chain.{ChainState, Error, block_gas_limit, account_by_evm}
use hanvil.Chain.Refusals.{reject}
use hanvil.Chain.Filters.{install_log_filter, install_block_filter, filter_changes}
use hanvil.Chain.Execution.{send_raw, send_unsigned}
use hanvil.Chain.Calls
use hanvil.Chain.Calls.{nonce_by_evm}
use hanvil.Chain.Filters
use hanvil.Text.{same_text}
use hanvil.Rpc.{
  Value, null, bool, string, array, values, member, Formats, hash, hex_data, quantity_u64,
}
use hanvil.Rpc.Errors.{
  RpcError, unsupported, method_not_found, invalid_params, of_error, from_failed_execution,
}
use hanvil.Rpc.Params.{
  parse_address, parse_bytes, parse_u64, parse_call, parse_optional_nonce, parse_log_filter,
  to_block_is_pinned, parse_block_number,
}
use hanvil.Rpc.Objects.{log_json}
use hanvil.Rpc.Eth.Reads.{Read, read, require_head_state}
use hanvil.Rpc.Eth.Methods.{
  Method, reads, new_filter, new_block_filter, uninstall_filter, get_filter_changes, call,
  estimate_gas, send_raw_transaction, send_transaction, unsupported_methods, method_of,
}
use hanvil.Rpc.Eth.Sending.{
  Answer, answered, panicked, unfinished, failed, send_raw_answer, send_unsigned_answer,
}

abbrev failed_execution : Option RpcError → Answer
failed_execution none = panicked
failed_execution (some e) = failed e

abbrev pub changes_value : FilterChanges → Value
changes_value (FilterChanges.logs found) = array (values (map log_json found))
changes_value (FilterChanges.blocks hashes) = array (values (map (λ h. string (hash h)) hashes))

module _ (formats : Formats) {Db : Type 0} (ext : Externals Db) (now : Timestamp) where
  -- The request of a call, on the head state.
  abbrev pub head_call : List Value → ChainState Db → Result RpcError CallRequest
  head_call params s = do
    request ← parse_call formats (get_elem? params 0)
    require_head_state formats ext s (get_elem? params 1)
    ok request

  abbrev call_answer : Result Error ExecutionResult → Answer
  call_answer (err e) = failed (of_error formats e)
  call_answer (ok result) = elim result.verdict [
    | Verdict.create a output ↦ answered (ok (string (hex_data output)))
    | Verdict.call output ↦ answered (ok (string (hex_data output)))
    | Verdict.revert output ↦ failed_execution (from_failed_execution formats result)
    | Verdict.halt reason ↦ failed_execution (from_failed_execution formats result)
  ]

  abbrev pub estimate_answer :
      Option (ChainState Db × Result Error ℕ) → ChainState Db → ChainState Db × Answer
  estimate_answer none s = (s, unfinished)
  estimate_answer (some (t, err e)) s = (t, failed (of_error formats e))
  estimate_answer (some (t, ok gas)) s = (t, answered (ok (string (quantity_u64 gas))))

  -- The estimate behind the run that shows whether the call fails.
  abbrev pub probed :
      CallRequest → ChainState Db × Result Error ExecutionResult → ChainState Db × Answer
  probed request (s, err e) = (s, failed (of_error formats e))
  probed request (s, ok probe) =
      if is_success probe
      then estimate_answer (Calls.estimate_gas ext request now s) s
      else (s, failed_execution (from_failed_execution formats probe))

  -- `eth_newFilter` watches on where no end is pinned.
  abbrev standing : Option Value → LogFilter → LogFilter
  standing param query =
      if to_block_is_pinned param then query else record query { to_block = u64_max }

  unfoldable pub handle : Method → List Value → ChainState Db → ChainState Db × Answer
  unfolding read parse_log_filter to_block_is_pinned install_log_filter install_block_filter
      Filters.uninstall_filter filter_changes parse_u64 parse_call require_head_state Calls.call
      Calls.estimate_gas send_raw_answer send_unsigned_answer from_failed_execution of_error
  handle (reads what) params s = (s, answered (read formats ext s params what))
  handle new_filter params s = elim (parse_log_filter formats s (get_elem? params 0)) [
    | err e ↦ (s, failed e)
    | ok query ↦
        (let (id, s') = install_log_filter (standing (get_elem? params 0) query) s in
          (s', answered (ok (string (quantity_u64 id)))))
  ]
  handle new_block_filter params s =
      let (id, s') = install_block_filter s in (s', answered (ok (string (quantity_u64 id))))
  handle uninstall_filter params s =
      elim (parse_u64 formats (get_elem? params 0) (codes "filter id")) [
        | err e ↦ (s, failed e)
        | ok id ↦
            (let (found, s') = Filters.uninstall_filter id s in (s', answered (ok (bool found))))
      ]
  handle get_filter_changes params s =
      elim (parse_u64 formats (get_elem? params 0) (codes "filter id")) [
        | err e ↦ (s, failed e)
        | ok id ↦ elim (filter_changes id s) [
          | err e ↦ (s, failed (of_error formats e))
          | ok (changes, s') ↦ (s', answered (ok (changes_value changes)))
        ]
      ]
  handle call params s = elim (head_call params s) [
    | err e ↦ (s, failed e)
    | ok request ↦ (let (s', outcome) = Calls.call ext request now s in (s', call_answer outcome))
  ]
  handle estimate_gas params s = elim (head_call params s) [
    | err e ↦ (s, failed e)
    | ok request ↦ probed request (Calls.call ext request now s)
  ]
  handle send_raw_transaction params s = send_raw_answer formats ext now (get_elem? params 0) s
  handle send_transaction params s = send_unsigned_answer formats ext now (get_elem? params 0) s

  unfoldable pub eth_call : Bytes → List Value → ChainState Db → ChainState Db × Answer
  unfolding handle method_of
  eth_call method params s =
      if any (same_text method) unsupported_methods
      then (s, failed (unsupported method))
      else elim (method_of method) [
        | none ↦ (s, failed (method_not_found method))
        | some m ↦ handle m params s
      ]
