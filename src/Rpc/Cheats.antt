-- ===== src/Rpc/Cheats.antt =====
-- The `evm_*`, `anvil_*` and `hardhat_*` cheats over JSON-RPC, of src/rpc/cheats.rs.
pub mod Mining
pub mod Copies
pub mod Effects
pub mod Restore
use hanvil.Prelude.{
  ℕ, zero, suc, ◌-◌, pos, Bool, true, false, ◌||◌, Option, none, some, List, [], ◌∷◌, ◌++◌, Bytes,
  codes, get_elem?, drop, length, map,
}
use hanvil.Prelude.Result.{Result, ok, err, map_err, ◌>>=◌}
use hanvil.Word.{u64_max, decimal}
use hanvil.Units.{from_weibar_exact}
use hanvil.Time.{Timestamp}
use hanvil.Accounts.{entity_text}
use hanvil.Records.{Rejection, kind_name, reason}
use hanvil.Records.Responses
use hanvil.Evm.{Externals}
use hanvil.Chain.{ChainState, Chain, latest_block, block_gas_limit}
use hanvil.Chain.Snapshots
use hanvil.Chain.Clock
use hanvil.Chain.Seal.{mine_empty}
use hanvil.Chain.Cheats
use hanvil.Harness.Signer.{nine_digits}
use hanvil.Text.{strip_prefix}
use hanvil.Rpc.{
  Value, null, bool, number, string, array, object, end, values, fields, find, Formats, hash,
  quantity_u64, weibar_u64, address,
}
use hanvil.Rpc.Errors.{
  RpcError, invalid_params, unsupported_with_reason, method_not_found, of_error, unit_error_text,
}
use hanvil.Rpc.Params.{optional, parse_address, parse_bytes, parse_quantity, parse_u64}
use hanvil.Rpc.Eth.Methods.{arm}
use hanvil.Rpc.Cheats.Mining.{u64_or, Mine, anvil_mine_params, evm_mine_params, mine}

abbrev has_prefix : Bytes → Bytes → Bool
has_prefix prefix text = elim (strip_prefix prefix text) [ none ↦ false | some rest ↦ true ]

unfoldable pub handles : Bytes → Bool
handles method =
    has_prefix (codes "evm_") method
    || (has_prefix (codes "anvil_") method
        || (has_prefix (codes "hardhat_") method || has_prefix (codes "hanvil_") method))

pub data Cheat : Type 0 where
  evm_snapshot evm_revert evm_mine anvil_mine increase_time set_next_block_timestamp : Cheat
  set_balance set_code set_nonce set_storage_at : Cheat
  impersonate_account stop_impersonating_account node_info rejections : Cheat
  automine state_file : Cheat

abbrev cheats : List (Bytes × Cheat)
cheats =
    (codes "evm_snapshot", evm_snapshot)
    ∷ (codes "evm_revert", evm_revert)
    ∷ (codes "evm_mine", evm_mine)
    ∷ (codes "anvil_mine", anvil_mine)
    ∷ (codes "evm_increaseTime", increase_time)
    ∷ (codes "evm_setNextBlockTimestamp", set_next_block_timestamp)
    ∷ (codes "anvil_setBalance", set_balance)
    ∷ (codes "anvil_setCode", set_code)
    ∷ (codes "anvil_setNonce", set_nonce)
    ∷ (codes "anvil_setStorageAt", set_storage_at)
    ∷ (codes "anvil_impersonateAccount", impersonate_account)
    ∷ (codes "anvil_stopImpersonatingAccount", stop_impersonating_account)
    ∷ (codes "anvil_nodeInfo", node_info)
    ∷ (codes "hanvil_rejections", rejections)
    ∷ (codes "evm_setAutomine", automine)
    ∷ (codes "anvil_setAutomine", automine)
    ∷ (codes "evm_setIntervalMining", automine)
    ∷ (codes "anvil_setIntervalMining", automine)
    ∷ (codes "anvil_dumpState", state_file)
    ∷ (codes "anvil_loadState", state_file)
    ∷ (codes "anvil_reset", state_file)
    ∷ []

-- `hardhat_` is read as `anvil_`.
abbrev pub canonical : Bytes → Bytes
canonical method = elim (strip_prefix (codes "hardhat_") method) [
  | none ↦ method
  | some rest ↦ codes "anvil_" ++ rest
]

unfoldable pub cheat_of : Bytes → Option Cheat
cheat_of method = arm (canonical method) cheats

module _ (formats : Formats) {Db : Type 0} (ext : Externals Db) (now : Timestamp) where
  -- The cheats that write the state; what they answer stands behind the new state.
  abbrev pub balance_cheat : List Value → ChainState Db → Result RpcError (ChainState Db)
  balance_cheat params s = do
    a ← parse_address formats (get_elem? params 0)
    wei ← parse_quantity formats (get_elem? params 1) (codes "balance")
    balance ← map_err (λ e. invalid_params (unit_error_text e)) (from_weibar_exact wei)
    ok (Cheats.set_balance ext a balance now s)

  abbrev pub code_cheat : List Value → ChainState Db → Result RpcError (ChainState Db)
  code_cheat params s = do
    a ← parse_address formats (get_elem? params 0)
    code ← parse_bytes formats (get_elem? params 1) (codes "code")
    ok (Cheats.set_code ext a code s)

  abbrev pub nonce_cheat : List Value → ChainState Db → Result RpcError (ChainState Db)
  nonce_cheat params s = do
    a ← parse_address formats (get_elem? params 0)
    nonce ← parse_u64 formats (get_elem? params 1) (codes "nonce")
    ok (Cheats.set_nonce ext a nonce s)

  abbrev pub storage_cheat : List Value → ChainState Db → Result RpcError (ChainState Db)
  storage_cheat params s = do
    a ← parse_address formats (get_elem? params 0)
    slot ← parse_quantity formats (get_elem? params 1) (codes "slot")
    value ← parse_quantity formats (get_elem? params 2) (codes "value")
    ok (Cheats.set_storage ext a slot value s)

  abbrev pub timestamp_cheat : List Value → ChainState Db → Result RpcError (ChainState Db)
  timestamp_cheat params s = do
    timestamp ← parse_u64 formats (get_elem? params 0) (codes "timestamp")
    map_err (of_error formats) (Clock.set_next_timestamp timestamp s)

  abbrev pub impersonate_cheat : List Value → ChainState Db → Result RpcError (ChainState Db)
  impersonate_cheat params s =
      parse_address formats (get_elem? params 0) >>= λ a. ok (Cheats.impersonate a s)

  abbrev pub stop_cheat : List Value → ChainState Db → Result RpcError (ChainState Db)
  stop_cheat params s =
      parse_address formats (get_elem? params 0) >>= λ a. ok (Cheats.stop_impersonating a s)

  abbrev node_info_value : ChainState Db → Value
  node_info_value s =
      let head = latest_block s in
      object (
        fields (
          (codes "currentBlockNumber", string (quantity_u64 head.number))
          ∷ (codes "currentBlockTimestamp", number (pos head.timestamp))
          ∷ (codes "currentBlockHash", string (hash head.hash))
          ∷ (codes "hardFork", string (codes "cancun"))
          ∷ (codes "transactionOrder", string (codes "fifo"))
          ∷ (
            codes "environment",
            object (
                fields (
                  (codes "baseFee", string (weibar_u64 s.gas_price))
                  ∷ (codes "chainId", number (pos s.chain_id))
                  ∷ (codes "gasLimit", string (quantity_u64 block_gas_limit))
                  ∷ (codes "gasPrice", string (weibar_u64 s.gas_price))
                  ∷ [])),
          )
          ∷ (codes "forkConfig", object end)
          ∷ []))

  abbrev value_or_null : Option Value → Value
  value_or_null none = null
  value_or_null (some v) = v

  abbrev rejection_value : Rejection → Value
  rejection_value r = object (
      fields (
        (codes "at", string (decimal r.at.secs ++ (codes "." ++ nine_digits r.at.nanos)))
        ∷ (codes "kind", string (kind_name r))
        ∷ (codes "payer", elim r.payer [ none ↦ null | some id ↦ string (entity_text id) ])
        ∷ (codes "from", elim r.from [ none ↦ null | some a ↦ string (address a) ])
        ∷ (
          codes "code",
          elim r.status [ none ↦ null | some status ↦ number (pos (Responses.code status)) ],
        )
        ∷ (codes "reason", string (reason r))
        ∷ []))

  -- The newest, up to the limit asked for, oldest first.
  abbrev rejections_answer : List Value → ChainState Db → Result RpcError Value
  rejections_answer params s = do
    most ← u64_or formats u64_max (get_elem? params 0) (codes "limit")
    ok (array (values (map rejection_value (drop (length s.rejections - most) s.rejections))))

  -- A cheat on the state, with the value that it answers.
  abbrev pub changed :
      Value → Chain Db → Result RpcError (ChainState Db) → Chain Db × Result RpcError Value
  changed v c (err e) = (c, err e)
  changed v c (ok s) = (record c { state = s }, ok v)

  abbrev told : Chain Db → Result RpcError Value → Chain Db × Result RpcError Value
  told c answer = (c, answer)

  abbrev reverted : Chain Db → Result RpcError ℕ → Chain Db × Result RpcError Value
  reverted c (err e) = (c, err e)
  reverted c (ok id) = let (found, c') = Snapshots.revert id c in (c', ok (bool found))

  abbrev increased : Chain Db → Result RpcError ℕ → Chain Db × Result RpcError Value
  increased c (err e) = (c, err e)
  increased c (ok seconds) =
      let (offset, s) = Clock.increase_time seconds c.state in
      (record c { state = s }, ok (number offset))

  unfoldable pub cheat : Cheat → Bytes → List Value → Chain Db → Chain Db × Result RpcError Value
  unfolding Snapshots.snapshot Snapshots.revert mine anvil_mine_params evm_mine_params
      Clock.increase_time Clock.set_next_timestamp Cheats.set_balance Cheats.set_code
      Cheats.set_nonce Cheats.set_storage Cheats.impersonate Cheats.stop_impersonating parse_address
      parse_bytes parse_quantity parse_u64 of_error
  cheat evm_snapshot method params c =
      let (id, c') = Snapshots.snapshot c in (c', ok (string (quantity_u64 id)))
  cheat evm_revert method params c =
      reverted c (parse_u64 formats (get_elem? params 0) (codes "snapshot id"))
  cheat evm_mine method params c =
      changed (string (codes "0x0")) c
        (mine formats ext now (evm_mine_params formats params) c.state)
  cheat anvil_mine method params c =
      changed null c (mine formats ext now (anvil_mine_params formats params) c.state)
  cheat increase_time method params c =
      increased c (parse_u64 formats (get_elem? params 0) (codes "seconds"))
  cheat set_next_block_timestamp method params c = changed null c (timestamp_cheat params c.state)
  cheat set_balance method params c = changed null c (balance_cheat params c.state)
  cheat set_code method params c = changed null c (code_cheat params c.state)
  cheat set_nonce method params c = changed null c (nonce_cheat params c.state)
  cheat set_storage_at method params c = changed (bool true) c (storage_cheat params c.state)
  cheat impersonate_account method params c = changed null c (impersonate_cheat params c.state)
  cheat stop_impersonating_account method params c = changed null c (stop_cheat params c.state)
  cheat node_info method params c = told c (ok (node_info_value c.state))
  cheat rejections method params c = told c (rejections_answer params c.state)
  cheat automine method params c = told c (
      err (
        unsupported_with_reason method
          (codes "hanvil mines one block per transaction; batch mining is not emulated")))
  cheat state_file method params c =
      told c (err (unsupported_with_reason method (codes "not emulated yet; use evm_snapshot")))

  unfoldable pub cheat_call : Bytes → List Value → Chain Db → Chain Db × Result RpcError Value
  unfolding cheat cheat_of
  cheat_call method params c = elim (cheat_of method) [
    | none ↦ (c, err (method_not_found method))
    | some what ↦ cheat what method params c
  ]
