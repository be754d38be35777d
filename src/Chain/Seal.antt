-- ===== src/Chain/Seal.antt =====
-- Sealing a block, of src/state/mod.rs: `seal_block` and `mine_empty`.
pub mod Links
use hanvil.Prelude.{ℕ, ◌+◌, List, [], ◌∷◌, ◌++◌, map, length}
use hanvil.Word.{add_u64}
use hanvil.Time.{Timestamp}
use hanvil.Blocks.{B256, Bloom, StoredLog, TxRecord, compute_hash}
use hanvil.Maps.HashMap.{HashMap}
use hanvil.Maps.HashMap
use hanvil.Prelude.Eq.{nat_eq}
use hanvil.Evm.{Externals}
use hanvil.Chain.{ChainState, block_gas_limit, block_number, latest_block}
use hanvil.Chain.Clock.{next_block_timestamp, next_consensus}

-- The logs of one record, from the block's log index `i` on.
unfoldable pub fill_logs : B256 → ℕ → ℕ → B256 → ℕ → List StoredLog → List StoredLog
fill_logs tx_hash tx_index number hash i [] = []
fill_logs tx_hash tx_index number hash i (log ∷ logs) =
    record log {
      log_index = i;
      tx_hash = tx_hash;
      tx_index = tx_index;
      block_number = number;
      block_hash = hash;
    }
    ∷ fill_logs tx_hash tx_index number hash (i + 1) logs

-- The records of a block from position `index` and log index `i` on.
unfoldable pub fill_records : ℕ → B256 → ℕ → ℕ → List TxRecord → List TxRecord
unfolding fill_logs
fill_records number hash index i [] = []
fill_records number hash index i (r ∷ rs) =
    record r {
      block_number = number;
      block_hash = hash;
      index = index;
      receipt = record (r.receipt) { logs = fill_logs r.hash index number hash i r.receipt.logs };
    }
    ∷ fill_records number hash (index + 1) (i + length r.receipt.logs) rs

unfoldable pub gas_of : ℕ → List TxRecord → ℕ
unfolding add_u64
gas_of acc [] = acc
gas_of acc (r ∷ rs) = gas_of (add_u64 acc r.receipt.gas_used) rs

unfoldable pub bloom_of : (Bloom → Bloom → Bloom) → Bloom → List TxRecord → Bloom
bloom_of accrue acc [] = acc
bloom_of accrue acc (r ∷ rs) = bloom_of accrue (accrue acc r.receipt.logs_bloom) rs

unfoldable pub insert_txs : List TxRecord → HashMap B256 TxRecord → HashMap B256 TxRecord
insert_txs [] m = m
insert_txs (r ∷ rs) m = insert_txs rs (HashMap.insert r.hash r m)

module _ {Db : Type 0} (ext : Externals Db) where
  unfoldable pub seal_block : ℕ → Timestamp → List TxRecord → ChainState Db → ChainState Db
  unfolding compute_hash fill_records gas_of bloom_of insert_txs
  seal_block timestamp consensus records s =
      let number = block_number s + 1 in
      let parent = (latest_block s).hash in
      let hashes = map (λ (r : TxRecord). r.hash) records in
      let hash = compute_hash ext.keccak256 number parent timestamp hashes in
      record s {
        blocks =
            s.blocks
            ++ record {
              number = number;
              hash = hash;
              parent_hash = parent;
              timestamp = timestamp;
              consensus_timestamp = consensus;
              gas_limit = block_gas_limit;
              gas_used = gas_of 0 records;
              base_fee = s.gas_price;
              transactions = hashes;
              logs_bloom = bloom_of ext.accrue_bloom 0 records;
            }
              ∷ [];
        txs = insert_txs (fill_records number hash 0 0 records) s.txs;
      }

  unfoldable pub mine_empty : Timestamp → ChainState Db → ChainState Db
  mine_empty now s =
      let (timestamp, s1) = next_block_timestamp now s in
      let (consensus, s2) = next_consensus (record { secs = timestamp; nanos = now.nanos }) s1 in
      seal_block timestamp consensus [] s2
