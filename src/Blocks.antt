-- ===== src/Blocks.antt =====
-- src/state/blocks.rs: blocks, transactions, receipts and logs as the chain stores them, and the
-- log filter. A B256 or a bloom is the number that its bytes write.
use hanvil.Prelude.{
  ℕ, zero, suc, ◌+◌, ◌/◌, ◌%◌, Bool, true, false, Option, none, some, List, [], ◌∷◌, ◌++◌, Bytes,
  ◌==◌, if◌then◌else◌, any, get_elem?, ◌&&◌, flat_map,
}
use hanvil.Units.{Address}
use hanvil.Time.{Timestamp}

abbrev pub B256 : Type 0
B256 = ℕ

abbrev pub Bloom : Type 0
Bloom = ℕ

-- `to_be_bytes` at a width in bytes
unfoldable pub be_bytes : ℕ → ℕ → Bytes
be_bytes zero n = []
be_bytes (suc w) n = be_bytes w (n / 256) ++ (n % 256) ∷ []

pub record Block : Type 0 where
  pub number : ℕ
  pub hash : B256
  pub parent_hash : B256
  pub timestamp : ℕ
  pub consensus_timestamp : Timestamp
  pub gas_limit : ℕ
  pub gas_used : ℕ
  pub base_fee : ℕ
  pub transactions : List B256
  pub logs_bloom : Bloom

-- `keccak256` is a parameter: it stands outside the repository.
unfoldable pub compute_hash : (Bytes → B256) → ℕ → B256 → ℕ → List B256 → B256
compute_hash keccak256 number parent_hash timestamp txs = keccak256 (
    be_bytes 8 number
    ++ be_bytes 32 parent_hash
    ++ be_bytes 8 timestamp
    ++ flat_map (be_bytes 32) txs)

pub record UnsignedTx : Type 0 where
  pub from : Address
  pub to : Option Address
  pub nonce : ℕ
  pub gas_limit : ℕ
  pub gas_price : ℕ
  pub value : ℕ
  pub input : Bytes

pub data TxBody : Type 0 where
  signed : Bytes → TxBody
  unsigned : UnsignedTx → TxBody

pub record StoredLog : Type 0 where
  pub address : Address
  pub topics : List B256
  pub payload : Bytes
  pub log_index : ℕ
  pub tx_hash : B256
  pub tx_index : ℕ
  pub block_number : ℕ
  pub block_hash : B256

pub record Receipt : Type 0 where
  pub success : Bool
  pub gas_used : ℕ
  pub effective_gas_price : ℕ
  pub contract_address : Option Address
  pub logs : List StoredLog
  pub logs_bloom : Bloom
  pub output : Bytes
  pub halt_reason : Option Bytes

pub record TxRecord : Type 0 where
  pub hash : B256
  pub body : TxBody
  pub from : Address
  pub block_number : ℕ
  pub block_hash : B256
  pub index : ℕ
  pub consensus_timestamp : Timestamp
  pub receipt : Receipt

pub record LogFilter : Type 0 where
  pub from_block : ℕ
  pub to_block : ℕ
  pub addresses : List Address
  pub topics : List (Option (List B256))

-- One position: no clause matches anything, a list matches a listed topic that is there.
abbrev pub clause_matches : Option (List B256) → Option B256 → Bool
clause_matches none t = true
clause_matches (some any_of) none = false
clause_matches (some any_of) (some t) = any (λ x. x == t) any_of

-- The clauses from position `i` on.
unfoldable pub topics_match : List (Option (List B256)) → List B256 → ℕ → Bool
topics_match [] topics i = true
topics_match (clause ∷ rest) topics i =
    clause_matches clause (get_elem? topics i) && topics_match rest topics (i + 1)

-- An empty list of addresses means any.
abbrev pub address_matches : List Address → Address → Bool
address_matches [] a = true
address_matches (x ∷ xs) a = any (λ y. y == a) (x ∷ xs)

unfoldable pub matches : LogFilter → StoredLog → Bool
unfolding topics_match
matches f log =
    if address_matches f.addresses log.address then topics_match f.topics log.topics 0 else false

-- `eth_call` and `eth_estimateGas`, already in tinybar
pub record CallRequest : Type 0 where
  pub from : Option Address
  pub to : Option Address
  pub gas : Option ℕ
  pub gas_price : Option ℕ
  pub value : ℕ
  pub input : Bytes

pub data Filter : Type 0 where
  logs : (query : LogFilter) (next_block : ℕ) → Filter
  blocks : (next_block : ℕ) → Filter

pub data FilterChanges : Type 0 where
  logs : List StoredLog → FilterChanges
  blocks : List B256 → FilterChanges
