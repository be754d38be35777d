-- ===== src/Rpc/Eth/Methods.antt =====
-- The names of the methods, of src/rpc/eth.rs.
use hanvil.Prelude.{Option, none, some, List, [], ◌∷◌, Bytes, codes, if◌then◌else◌}
use hanvil.Text.{same_text}
use hanvil.Rpc.Eth.Reads.{Read}

-- The methods, those that only read the chain together.
pub data Method : Type 0 where
  reads : Read → Method
  new_filter new_block_filter uninstall_filter get_filter_changes : Method
  call estimate_gas : Method
  send_raw_transaction send_transaction : Method

abbrev pub unsupported_methods : List Bytes
unsupported_methods =
    codes "eth_blobBaseFee"
    ∷ codes "net_peerCount"
    ∷ codes "eth_newPendingTransactionFilter"
    ∷ codes "eth_coinbase"
    ∷ codes "eth_createAccessList"
    ∷ codes "eth_getProof"
    ∷ codes "eth_protocolVersion"
    ∷ codes "eth_sign"
    ∷ codes "eth_signTransaction"
    ∷ codes "eth_signTypedData"
    ∷ codes "eth_getWork"
    ∷ codes "eth_submitHashrate"
    ∷ []

abbrev methods : List (Bytes × Method)
methods =
    (codes "eth_chainId", reads Read.chain_id)
    ∷ (codes "net_version", reads Read.net_version)
    ∷ (codes "net_listening", reads Read.net_listening)
    ∷ (codes "web3_clientVersion", reads Read.client_version)
    ∷ (codes "web3_sha3", reads Read.sha3)
    ∷ (codes "eth_blockNumber", reads Read.current_block)
    ∷ (codes "eth_gasPrice", reads Read.gas_price)
    ∷ (codes "eth_maxPriorityFeePerGas", reads Read.max_priority_fee_per_gas)
    ∷ (codes "eth_feeHistory", reads Read.fee_history)
    ∷ (codes "eth_accounts", reads Read.accounts)
    ∷ (codes "eth_mining", reads Read.mining)
    ∷ (codes "eth_syncing", reads Read.syncing)
    ∷ (codes "eth_hashrate", reads Read.hashrate)
    ∷ (codes "eth_submitWork", reads Read.submit_work)
    ∷ (codes "eth_getUncleByBlockHashAndIndex", reads Read.uncle)
    ∷ (codes "eth_getUncleByBlockNumberAndIndex", reads Read.uncle)
    ∷ (codes "eth_getUncleCountByBlockHash", reads Read.uncle_count)
    ∷ (codes "eth_getUncleCountByBlockNumber", reads Read.uncle_count)
    ∷ (codes "eth_getBalance", reads Read.get_balance)
    ∷ (codes "eth_getTransactionCount", reads Read.get_transaction_count)
    ∷ (codes "eth_getCode", reads Read.get_code)
    ∷ (codes "eth_getStorageAt", reads Read.get_storage_at)
    ∷ (codes "eth_getBlockByNumber", reads Read.get_block_by_number)
    ∷ (codes "eth_getBlockByHash", reads Read.get_block_by_hash)
    ∷ (
      codes "eth_getBlockTransactionCountByNumber",
      reads Read.get_block_transaction_count_by_number,
    )
    ∷ (codes "eth_getBlockTransactionCountByHash", reads Read.get_block_transaction_count_by_hash)
    ∷ (codes "eth_getBlockReceipts", reads Read.get_block_receipts)
    ∷ (codes "eth_getTransactionByHash", reads Read.get_transaction_by_hash)
    ∷ (codes "eth_getTransactionReceipt", reads Read.get_transaction_receipt)
    ∷ (
      codes "eth_getTransactionByBlockNumberAndIndex",
      reads Read.get_transaction_by_block_number_and_index,
    )
    ∷ (
      codes "eth_getTransactionByBlockHashAndIndex",
      reads Read.get_transaction_by_block_hash_and_index,
    )
    ∷ (codes "eth_getLogs", reads Read.get_logs)
    ∷ (codes "eth_newFilter", new_filter)
    ∷ (codes "eth_newBlockFilter", new_block_filter)
    ∷ (codes "eth_uninstallFilter", uninstall_filter)
    ∷ (codes "eth_getFilterChanges", get_filter_changes)
    ∷ (codes "eth_getFilterLogs", reads Read.get_filter_logs)
    ∷ (codes "eth_call", call)
    ∷ (codes "eth_estimateGas", estimate_gas)
    ∷ (codes "eth_sendRawTransaction", send_raw_transaction)
    ∷ (codes "eth_sendTransaction", send_transaction)
    ∷ []

-- The method of a name: the arms of the match.
abbrev pub arm : {A : Type 0} → Bytes → List (Bytes × A) → Option A
arm name [] = none
arm name ((key, method) ∷ rest) = if same_text name key then some method else arm name rest

unfoldable pub method_of : Bytes → Option Method
method_of name = arm name methods
