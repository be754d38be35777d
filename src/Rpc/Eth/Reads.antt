-- ===== src/Rpc/Eth/Reads.antt =====
-- The methods that only read the chain, of src/rpc/eth.rs.
use hanvil.Prelude.{
  ℕ, ◌-◌, ◌==◌, Bool, true, false, Option, none, some, List, [], ◌∷◌, ◌++◌, Bytes, codes, get_elem?,
  map, filter_map, length, if◌then◌else◌,
}
use hanvil.Prelude.Result.{Result, ok, err, map_err, ◌>>=◌, ◌>>◌}
use hanvil.Word.{decimal}
use hanvil.Blocks.{B256, Block}
use hanvil.Evm.{Externals}
use hanvil.Chain.{ChainState, block_number, block_by_number, transaction}
use hanvil.Chain.Clock.{larger}
use hanvil.Chain.Filters.{logs, filter_logs, range_inclusive, smaller}
use hanvil.Chain.Calls.{balance_by_evm, nonce_by_evm, code_by_evm, storage_at, signing_addresses}
use hanvil.Text.{strip_prefix}
use hanvil.Rpc.{
  Value, null, bool, string, array, object, values, items, fields, Formats, hash, hex_data,
  quantity_u64, weibar, weibar_u64, address,
}
use hanvil.Rpc.Errors.{RpcError, server, of_error}
use hanvil.Rpc.Params.{
  param_text, parse_address, parse_hash, parse_quantity, parse_u64, parse_bytes, parse_block_number,
  parse_log_filter, block_by_hash,
}
use hanvil.Rpc.Objects.{log_json, tx_json, receipt_json, block_json}

pub data Read : Type 0 where
  chain_id net_version net_listening client_version sha3 current_block gas_price : Read
  max_priority_fee_per_gas fee_history accounts mining syncing hashrate submit_work : Read
  uncle uncle_count : Read
  get_balance get_transaction_count get_code get_storage_at : Read
  get_block_by_number get_block_by_hash : Read
  get_block_transaction_count_by_number get_block_transaction_count_by_hash : Read
  get_block_receipts get_transaction_by_hash get_transaction_receipt : Read
  get_transaction_by_block_number_and_index get_transaction_by_block_hash_and_index : Read
  get_logs get_filter_logs : Read

abbrev or_null : {A : Type 0} → (A → Value) → Option A → Value
or_null show none = null
or_null show (some a) = show a

-- `and_then(Value::as_bool).unwrap_or(false)`
abbrev is_true : Option Value → Bool
is_true (some (bool b)) = b
is_true v = false

-- `and_then(Value::as_str).is_some_and(|s| s.starts_with("0x"))`
abbrev is_hex_text : Option Bytes → Bool
is_hex_text none = false
is_hex_text (some text) = elim (strip_prefix (codes "0x") text) [ none ↦ false | some rest ↦ true ]

-- `clamp(1, 1024)`
abbrev clamp_count : ℕ → ℕ
clamp_count n = larger (smaller n 1024) 1

module _ (formats : Formats) {Db : Type 0} (ext : Externals Db) (s : ChainState Db) where
  -- Only the head state is kept.
  unfoldable pub require_head_state : Option Value → Result RpcError (Unit {0})
  unfolding parse_block_number decimal
  require_head_state tag = parse_block_number formats s tag >>= λ n.
      if n == block_number s
      then ok tt
      else err (
          server (
            codes "historical state is not kept: block "
            ++ (decimal n
                ++ (codes " requested, head is "
                    ++ (decimal (block_number s) ++ codes "; use latest or evm_snapshot")))))

  abbrev tx_value : B256 → Value
  tx_value h = or_null (tx_json formats ext) (transaction s h)

  abbrev tx_at : Option Block → ℕ → Value
  tx_at none index = null
  tx_at (some b) index = or_null tx_value (get_elem? b.transactions index)

  abbrev block_value : Bool → Option Block → Value
  block_value full = or_null λ b. block_json formats ext s b full

  abbrev count_value : Option Block → Value
  count_value = or_null λ (b : Block). string (quantity_u64 (length b.transactions))

  -- No reward for each block of the range, under each percentile asked for.
  abbrev rewards : Option Value → List ℕ → List (Bytes × Value)
  rewards (some (array percentiles)) numbers =
      (
        codes "reward",
        array (
            values (
              map (λ n. array (values (map (λ v. string (codes "0x0")) (items percentiles))))
                numbers)),
      )
      ∷ []
  rewards param numbers = []

  abbrev fee_history_of : Option Value → ℕ → ℕ → Value
  fee_history_of percentiles oldest newest =
      let numbers = range_inclusive oldest newest in
      let found = filter_map (block_by_number s) numbers in
      object (
        fields (
          (codes "oldestBlock", string (quantity_u64 oldest))
          ∷ (
            codes "baseFeePerGas",
            array (
                values (
                  map (λ (b : Block). string (weibar_u64 b.base_fee)) found
                  ++ string (weibar s.gas_price) ∷ [])),
          )
          ∷ (
            codes "gasUsedRatio",
            array (values (map (λ (b : Block). formats.ratio b.gas_used b.gas_limit) found)),
          )
          ∷ rewards percentiles numbers))

  module _ (params : List Value) where
    abbrev p : ℕ → Option Value
    p i = get_elem? params i

    abbrev fee_history_answer : Result RpcError Value
    fee_history_answer = do
      asked ← parse_u64 formats (p 0) (codes "blockCount")
      newest ← parse_block_number formats s (p 1)
      ok (fee_history_of (p 2) (newest - (clamp_count asked - 1)) newest)

    -- A number that cannot be read is no block where it is written in hex.
    abbrev block_by_number_answer : Result RpcError ℕ → Result RpcError Value
    block_by_number_answer (ok n) = ok (block_value (is_true (p 1)) (block_by_number s n))
    block_by_number_answer (err e) = if is_hex_text (param_text (p 0)) then ok null else err e

    unfoldable pub read : Read → Result RpcError Value
    unfolding parse_address parse_hash parse_quantity parse_u64 parse_bytes parse_block_number
        parse_log_filter require_head_state balance_by_evm nonce_by_evm code_by_evm storage_at logs
        filter_logs
    read chain_id = ok (string (quantity_u64 s.chain_id))
    read net_version = ok (string (decimal s.chain_id))
    read net_listening = ok (bool true)
    read client_version = ok (string (codes "hanvil/0.1.0"))
    read sha3 =
        parse_bytes formats (p 0) (codes "data") >>= λ b. ok (string (hash (ext.keccak256 b)))
    read current_block = ok (string (quantity_u64 (block_number s)))
    read gas_price = ok (string (weibar s.gas_price))
    read max_priority_fee_per_gas = ok (string (codes "0x0"))
    read fee_history = fee_history_answer
    read accounts = ok (array (values (map (λ a. string (address a)) (signing_addresses s))))
    read mining = ok (bool false)
    read syncing = ok (bool false)
    read hashrate = ok (string (codes "0x0"))
    read submit_work = ok (bool false)
    read uncle = ok null
    read uncle_count = ok (string (codes "0x0"))
    read get_balance = do
      a ← parse_address formats (p 0)
      require_head_state (p 1)
      ok (string (weibar (balance_by_evm ext a s)))
    read get_transaction_count = do
      a ← parse_address formats (p 0)
      require_head_state (p 1)
      ok (string (quantity_u64 (nonce_by_evm ext a s)))
    read get_code = do
      a ← parse_address formats (p 0)
      require_head_state (p 1)
      ok (string (hex_data (code_by_evm ext a s)))
    read get_storage_at = do
      a ← parse_address formats (p 0)
      slot ← parse_quantity formats (p 1) (codes "slot")
      require_head_state (p 2)
      ok (string (hash (storage_at ext a slot s)))
    read get_block_by_number = block_by_number_answer (parse_block_number formats s (p 0))
    read get_block_by_hash = do
      h ← parse_hash formats (p 0)
      ok (block_value (is_true (p 1)) (block_by_hash s h))
    read get_block_transaction_count_by_number = do
      n ← parse_block_number formats s (p 0)
      ok (count_value (block_by_number s n))
    read get_block_transaction_count_by_hash = do
      h ← parse_hash formats (p 0)
      ok (count_value (block_by_hash s h))
    read get_block_receipts = do
      n ← parse_block_number formats s (p 0)
      ok (
          or_null
            (λ (b : Block).
              array (
                values
                  (map (receipt_json formats ext) (filter_map (transaction s) b.transactions))))
            (block_by_number s n))
    read get_transaction_by_hash = do h ← parse_hash formats (p 0); ok (tx_value h)
    read get_transaction_receipt = do
      h ← parse_hash formats (p 0)
      ok (or_null (receipt_json formats ext) (transaction s h))
    read get_transaction_by_block_number_and_index = do
      n ← parse_block_number formats s (p 0)
      index ← parse_u64 formats (p 1) (codes "index")
      ok (tx_at (block_by_number s n) index)
    read get_transaction_by_block_hash_and_index = do
      h ← parse_hash formats (p 0)
      index ← parse_u64 formats (p 1) (codes "index")
      ok (tx_at (block_by_hash s h) index)
    read get_logs = do
      filter ← parse_log_filter formats s (p 0)
      ok (array (values (map log_json (logs filter s))))
    read get_filter_logs = do
      id ← parse_u64 formats (p 0) (codes "filter id")
      found ← map_err (of_error formats) (filter_logs id s)
      ok (array (values (map log_json found)))
