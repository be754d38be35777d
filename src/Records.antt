-- ===== src/Records.antt =====
-- src/state/hapi.rs: what HAPI transactions are and what they leave behind.
pub mod Responses
use hanvil.Prelude.{
  ℕ, ℤ, Bool, true, false, ◌≡◌, ◌↔◌, Option, none, some, List, [], ◌∷◌, ◌++◌, Bytes, codes, arith,
  ◌==◌, ◌&&◌, pos, negsuc,
}
use hanvil.Prelude.Eq.{Eq}
use hanvil.Units.{Tinybar, Address}
use hanvil.Time.{Timestamp, timestamp_eq}
use hanvil.Accounts.{EntityId, Key}
use hanvil.Blocks.{be_bytes}
use Responses.{Status}
use Responses

pub record TxId : Type 0 where
  pub payer : EntityId
  pub valid_start : Timestamp
  pub nonce : ℤ
  pub scheduled : Bool

abbrev int_eq : ℤ → ℤ → Bool
int_eq (pos a) (pos b) = a == b
int_eq (pos a) (negsuc b) = false
int_eq (negsuc a) (pos b) = false
int_eq (negsuc a) (negsuc b) = a == b

abbrev bool_eq : Bool → Bool → Bool
bool_eq true b = b
bool_eq false true = false
bool_eq false false = true

-- the derived equality of transaction ids
unfoldable pub tx_id_eq : TxId → TxId → Bool
tx_id_eq a b =
    a.payer == b.payer
    && timestamp_eq a.valid_start b.valid_start
    && int_eq a.nonce b.nonce
    && bool_eq a.scheduled b.scheduled

pub tx_id_eq_iff : (a b : TxId) → (tx_id_eq a b ≡ true) ↔ (a ≡ b)
unfolding tx_id_eq
tx_id_eq_iff a b = (λ h. ground arith, λ h. ground arith)

instance abbrev pub tx_id_has_eq : Eq TxId
tx_id_has_eq = record { beq = tx_id_eq; beq_iff = tx_id_eq_iff }

pub data BodyKind : Type 0 where
  crypto_create_account crypto_transfer crypto_delete : BodyKind
  consensus_create_topic consensus_submit_message ethereum_transaction : BodyKind

pub record Transfer : Type 0 where
  pub account : EntityId
  pub amount : ℤ

pub data AccountRef : Type 0 where
  id : EntityId → AccountRef
  alias : Address → AccountRef

pub record TopicMessage : Type 0 where
  pub sequence_number : ℕ
  pub message : Bytes
  pub running_hash : Bytes
  pub consensus_timestamp : Timestamp
  pub payer : EntityId

pub record Topic : Type 0 where
  pub id : EntityId
  pub memo : Bytes
  pub admin_key : Option Key
  pub submit_key : Option Key
  pub sequence_number : ℕ
  pub running_hash : Bytes
  pub created_at : Timestamp
  pub auto_renew_period : ℕ
  pub auto_renew_account : Option EntityId
  pub messages : List TopicMessage

abbrev pub running_hash_version : ℕ
running_hash_version = 3

-- `sha384` is a parameter: it stands outside the repository.
unfoldable pub running_hash_v3 :
    (Bytes → Bytes) → Bytes → EntityId → EntityId → Timestamp → ℕ → Bytes → Bytes
running_hash_v3 sha384 previous payer topic consensus sequence_number message = sha384 (
    previous
    ++ (be_bytes 8 running_hash_version
        ++ (be_bytes 8 0
            ++ (be_bytes 8 0
                ++ (be_bytes 8 payer
                    ++ (be_bytes 8 0
                        ++ (be_bytes 8 0
                            ++ (be_bytes 8 topic
                                ++ (be_bytes 8 consensus.secs
                                    ++ (be_bytes 4 consensus.nanos
                                        ++ (be_bytes 8 sequence_number ++ sha384 message)))))))))))

pub data Body : Type 0 where
  create_account :
      (key : Key) (initial_balance : Tinybar) (alias : Option Address) (memo : Bytes) → Body
  transfer : (amounts : List (AccountRef × ℤ)) → Body
  delete : (account transfer_to : EntityId) → Body
  create_topic :
      (memo : Bytes) (admin_key submit_key : Option Key) (auto_renew_period : ℕ)
      (auto_renew_account : Option EntityId)
      → Body
  submit_message : (topic : EntityId) (message : Bytes) → Body
  ethereum : (rlp : Bytes) → Body

unfoldable pub kind : Body → BodyKind
kind (create_account k b a m) = crypto_create_account
kind (transfer l) = crypto_transfer
kind (delete a t) = crypto_delete
kind (create_topic m a s p r) = consensus_create_topic
kind (submit_message t m) = consensus_submit_message
kind (ethereum r) = ethereum_transaction

pub record Transaction : Type 0 where
  pub id : TxId
  pub memo : Bytes
  pub max_fee : Tinybar
  pub hash : Bytes
  pub valid_duration_seconds : ℕ
  pub body : Body

pub record Record : Type 0 where
  pub id : TxId
  pub kind : BodyKind
  pub consensus_timestamp : Timestamp
  pub status : Status
  pub charged_fee : Tinybar
  pub max_fee : Tinybar
  pub memo : Bytes
  pub hash : Bytes
  pub valid_duration_seconds : ℕ
  pub transfers : List Transfer
  pub created_account : Option EntityId
  pub created_alias : Option Address
  pub created_topic : Option EntityId
  pub topic_sequence_number : ℕ
  pub topic_running_hash : Bytes
  pub ethereum_hash : Bytes

pub record Rejection : Type 0 where
  pub at : Timestamp
  pub kind : Option BodyKind
  pub payer : Option EntityId
  pub status : Option Status
  pub from : Option Address
  pub message : Bytes

abbrev pub kind_text : BodyKind → Bytes
kind_text crypto_create_account = codes "CRYPTOCREATEACCOUNT"
kind_text crypto_transfer = codes "CRYPTOTRANSFER"
kind_text crypto_delete = codes "CRYPTODELETE"
kind_text consensus_create_topic = codes "CONSENSUSCREATETOPIC"
kind_text consensus_submit_message = codes "CONSENSUSSUBMITMESSAGE"
kind_text ethereum_transaction = codes "ETHEREUMTRANSACTION"

abbrev pub kind_name : Rejection → Bytes
kind_name r = elim r.kind [ none ↦ codes "UNKNOWN" | some k ↦ kind_text k ]

-- The name of the status for HAPI, the message for JSON-RPC.
unfoldable pub reason : Rejection → Bytes
unfolding Responses.name
reason r = elim r.status [ none ↦ r.message | some status ↦ codes (Responses.name status) ]
