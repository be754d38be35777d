-- ===== src/Rpc/Objects.antt =====
-- The block, transaction, receipt and log objects of JSON-RPC, of src/rpc/types.rs.
use hanvil.Prelude.{
  ℕ, zero, suc, ◌+◌, ◌*◌, ◌%◌, Bool, true, false, Option, none, some, List, [], ◌∷◌, ◌++◌, Bytes,
  codes, if◌then◌else◌, map, filter_map, length, replicate,
}
use hanvil.Prelude.Result.{ok, err}
use hanvil.Word.{add_u64, u64_mod}
use hanvil.Units.{Address}
use hanvil.Blocks.{B256, Block, TxBody, signed, unsigned, UnsignedTx, StoredLog, TxRecord}
use hanvil.Evm.{Externals, Envelope}
use hanvil.Chain.{ChainState, transaction}
use hanvil.Rpc.{
  Value, null, bool, string, array, object, values, fields, Formats, fixed_digits, quantity,
  quantity_u64, weibar_u64, hex_data, hash, address,
}
use hanvil.Text.{same_text}

abbrev pub empty_uncles : Bytes
empty_uncles = codes "0x1dcc4de8dec75d7aab85b567b6ccd41ad312451b948a7413f0a142fd40d49347"

abbrev pub zero_32 : Bytes
zero_32 = 48 ∷ 120 ∷ replicate 64 48

-- 256 bytes
unfoldable pub bloom : ℕ → Bytes
bloom value = 48 ∷ 120 ∷ fixed_digits 512 value []

abbrev optional_address : Option Address → Value
optional_address none = null
optional_address (some a) = string (address a)

unfoldable pub log_json : StoredLog → Value
unfolding address hash hex_data quantity_u64
log_json log = object (
    fields (
      (codes "address", string (address log.address))
      ∷ (codes "topics", array (values (map (λ t. string (hash t)) log.topics)))
      ∷ (codes "data", string (hex_data log.payload))
      ∷ (codes "blockNumber", string (quantity_u64 log.block_number))
      ∷ (codes "blockHash", string (hash log.block_hash))
      ∷ (codes "transactionHash", string (hash log.tx_hash))
      ∷ (codes "transactionIndex", string (quantity_u64 log.tx_index))
      ∷ (codes "logIndex", string (quantity_u64 log.log_index))
      ∷ (codes "removed", bool false)
      ∷ []))

-- `map.insert(name, value)`: a field that is there is overwritten.
abbrev pub insert : Bytes → Value → List (Bytes × Value) → List (Bytes × Value)
insert name v [] = (name, v) ∷ []
insert name v ((key, w) ∷ rest) =
    let others = insert name v rest in
    if same_text key name then (name, v) ∷ rest else (key, w) ∷ others

abbrev unsigned_fields : UnsignedTx → List (Bytes × Value)
unsigned_fields tx =
    (codes "type", string (codes "0x0"))
    ∷ (codes "nonce", string (quantity_u64 tx.nonce))
    ∷ (codes "gas", string (quantity_u64 tx.gas_limit))
    ∷ (codes "gasPrice", string (weibar_u64 tx.gas_price))
    ∷ (codes "to", optional_address tx.to)
    ∷ (codes "value", string (weibar_u64 tx.value))
    ∷ (codes "input", string (hex_data tx.input))
    ∷ (codes "chainId", null)
    ∷ (codes "v", string (codes "0x0"))
    ∷ (codes "r", string (codes "0x0"))
    ∷ (codes "s", string (codes "0x0"))
    ∷ []

abbrev or_zero_fee : Option ℕ → ℕ
or_zero_fee none = 0
or_zero_fee (some fee) = fee

abbrev chain_id_value : Option ℕ → Value
chain_id_value none = null
chain_id_value (some id) = string (quantity_u64 id)

-- A legacy transaction's v, by EIP-155 where there is a chain id; on u64.
abbrev legacy_v : Option ℕ → ℕ → ℕ
legacy_v none parity = add_u64 27 parity
legacy_v (some id) parity = (id * 2 + 35 + parity) % u64_mod

module _ (formats : Formats) where
  abbrev access_list_of : Envelope → Value
  access_list_of e = array (
      values (
        map
          (λ entry. object (
            fields (
              (codes "address", string (address entry.0))
              ∷ (codes "storageKeys", array (values (map (λ k. string (hash k)) entry.1)))
              ∷ [])))
          (formats.access_entries e)))

  -- Type 0 is a legacy transaction.
  abbrev typed_fields : Envelope → ℕ → ℕ → List (Bytes × Value)
  typed_fields e zero parity = (codes "v", string (quantity_u64 (legacy_v e.chain_id parity))) ∷ []
  typed_fields e (suc n) parity =
      (codes "v", string (quantity_u64 parity))
      ∷ (codes "yParity", string (quantity_u64 parity))
      ∷ (codes "maxFeePerGas", string (quantity e.max_fee_per_gas))
      ∷ (codes "maxPriorityFeePerGas", string (quantity (or_zero_fee e.max_priority_fee_per_gas)))
      ∷ (codes "accessList", access_list_of e)
      ∷ []

  abbrev signed_fields : Envelope → List (Bytes × Value)
  signed_fields e =
      let (r, s, parity) = formats.signature_of e in
      ((codes "type", string (quantity_u64 e.tx_type))
        ∷ (codes "nonce", string (quantity_u64 e.nonce))
        ∷ (codes "gas", string (quantity_u64 e.gas_limit))
        ∷ (codes "gasPrice", string (quantity e.max_fee_per_gas))
        ∷ (codes "to", optional_address e.to)
        ∷ (codes "value", string (quantity e.value))
        ∷ (codes "input", string (hex_data e.input))
        ∷ (codes "chainId", chain_id_value e.chain_id)
        ∷ (codes "r", string (quantity r))
        ∷ (codes "s", string (quantity s))
        ∷ [])
      ++ typed_fields e e.tx_type parity

  module _ {Db : Type 0} (ext : Externals Db) where
    -- Bytes that no longer decode give no field.
    abbrev body_fields : TxBody → List (Bytes × Value)
    body_fields (unsigned tx) = unsigned_fields tx
    body_fields (signed raw) = elim (ext.decode_2718 raw) [ err e ↦ [] | ok e ↦ signed_fields e ]

    -- The price is the one paid, over what the body shows.
    unfoldable pub tx_json : TxRecord → Value
    unfolding address hash hex_data quantity quantity_u64 weibar_u64 add_u64
    tx_json tx = object (
        fields (
          insert (codes "gasPrice") (string (weibar_u64 tx.receipt.effective_gas_price)) (
            ((codes "hash", string (hash tx.hash))
              ∷ (codes "from", string (address tx.from))
              ∷ (codes "blockHash", string (hash tx.block_hash))
              ∷ (codes "blockNumber", string (quantity_u64 tx.block_number))
              ∷ (codes "transactionIndex", string (quantity_u64 tx.index))
              ∷ [])
            ++ body_fields tx.body)))

    abbrev type_and_to : TxBody → ℕ × Option Address
    type_and_to (unsigned tx) = (0, tx.to)
    type_and_to (signed raw) = elim (ext.decode_2718 raw) [
      | err e ↦ (0, none)
      | ok e ↦ (e.tx_type, e.to)
    ]

    unfoldable pub receipt_json : TxRecord → Value
    unfolding address hash quantity_u64 weibar_u64 log_json bloom
    receipt_json tx = object (
        fields (
          (codes "type", string (quantity_u64 (type_and_to tx.body).0))
          ∷ (codes "transactionHash", string (hash tx.hash))
          ∷ (codes "transactionIndex", string (quantity_u64 tx.index))
          ∷ (codes "blockHash", string (hash tx.block_hash))
          ∷ (codes "blockNumber", string (quantity_u64 tx.block_number))
          ∷ (codes "from", string (address tx.from))
          ∷ (codes "to", optional_address (type_and_to tx.body).1)
          ∷ (codes "cumulativeGasUsed", string (quantity_u64 tx.receipt.gas_used))
          ∷ (codes "gasUsed", string (quantity_u64 tx.receipt.gas_used))
          ∷ (codes "contractAddress", optional_address tx.receipt.contract_address)
          ∷ (codes "logs", array (values (map log_json tx.receipt.logs)))
          ∷ (codes "logsBloom", string (bloom tx.receipt.logs_bloom))
          ∷ (codes "root", string zero_32)
          ∷ (codes "status", string (if tx.receipt.success then codes "0x1" else codes "0x0"))
          ∷ (codes "effectiveGasPrice", string (weibar_u64 tx.receipt.effective_gas_price))
          ∷ []))

    -- The encoded length that a transaction adds.
    abbrev body_size : TxBody → ℕ
    body_size (signed raw) = length raw
    body_size (unsigned tx) = add_u64 100 (length tx.input)

    abbrev sizes : List TxRecord → ℕ
    sizes [] = 0
    sizes (tx ∷ txs) = add_u64 (body_size tx.body) (sizes txs)

    unfoldable pub block_size : ChainState Db → Block → ℕ
    unfolding add_u64
    block_size s b = add_u64 500 (sizes (filter_map (transaction s) b.transactions))

    abbrev block_tx : ChainState Db → Bool → B256 → Value
    block_tx s false h = string (hash h)
    block_tx s true h = elim (transaction s h) [ none ↦ null | some tx ↦ tx_json tx ]

    unfoldable pub block_json : ChainState Db → Block → Bool → Value
    unfolding address hash quantity_u64 weibar_u64 tx_json block_size bloom
    block_json s b full = object (
        fields (
          (codes "number", string (quantity_u64 b.number))
          ∷ (codes "hash", string (hash b.hash))
          ∷ (codes "parentHash", string (hash b.parent_hash))
          ∷ (codes "sha3Uncles", string empty_uncles)
          ∷ (codes "miner", string (address 0))
          ∷ (codes "stateRoot", string zero_32)
          ∷ (
            codes "transactionsRoot",
            string (elim b.transactions [ [] ↦ zero_32 | h ∷ hs ↦ hash b.hash ]),
          )
          ∷ (codes "receiptsRoot", string zero_32)
          ∷ (codes "logsBloom", string (bloom b.logs_bloom))
          ∷ (codes "difficulty", string (codes "0x0"))
          ∷ (codes "totalDifficulty", string (codes "0x0"))
          ∷ (codes "gasLimit", string (quantity_u64 b.gas_limit))
          ∷ (codes "gasUsed", string (quantity_u64 b.gas_used))
          ∷ (codes "timestamp", string (quantity_u64 b.timestamp))
          ∷ (codes "extraData", string (codes "0x"))
          ∷ (codes "mixHash", string zero_32)
          ∷ (codes "nonce", string (codes "0x0000000000000000"))
          ∷ (codes "baseFeePerGas", string (weibar_u64 b.base_fee))
          ∷ (codes "size", string (quantity_u64 (block_size s b)))
          ∷ (codes "transactions", array (values (map (block_tx s full) b.transactions)))
          ∷ (codes "uncles", array (values []))
          ∷ (codes "withdrawals", array (values []))
          ∷ (codes "withdrawalsRoot", string zero_32)
          ∷ []))
