-- ===== src/Wire/Proto.antt =====
-- The protobuf messages of proto/services that src/hapi/wire.rs reads, as prost generates them. An
-- `Option` is a message field that may be absent; an i64 or i32 is an integer.
use hanvil.Prelude.{ℕ, ℤ, Bool, Option, List, Bytes}

pub data AccountKind : Type 0 where
  account_num : ℤ → AccountKind
  alias : Bytes → AccountKind

pub record AccountId : Type 0 where
  pub account : Option AccountKind

pub record ProtoTimestamp : Type 0 where
  pub seconds : ℤ
  pub nanos : ℤ

pub record TransactionId : Type 0 where
  pub transaction_valid_start : Option ProtoTimestamp
  pub account_id : Option AccountId
  pub scheduled : Bool
  pub nonce : ℤ

pub data KeyKind : Type 0 where
  ed25519 ecdsa_secp256k1 : Bytes → KeyKind
  other : KeyKind

pub record ProtoKey : Type 0 where
  pub key : Option KeyKind

-- a `Duration`, by its seconds
abbrev pub Duration : Type 0
Duration = ℤ

-- a `TopicID`, by its number
abbrev pub TopicId : Type 0
TopicId = ℤ

pub record AccountAmount : Type 0 where
  pub account_id : Option AccountId
  pub amount : ℤ

pub record CreateAccount : Type 0 where
  pub key : Option ProtoKey
  pub initial_balance : ℕ
  pub alias : Bytes
  pub memo : Bytes

-- `token_transfers` counts the token lists, which the program only tests for emptiness.
pub record CryptoTransfer : Type 0 where
  pub transfers : Option (List AccountAmount)
  pub token_transfers : ℕ

pub record CryptoDelete : Type 0 where
  pub transfer_account_id : Option AccountId
  pub delete_account_id : Option AccountId

pub record CreateTopic : Type 0 where
  pub memo : Bytes
  pub admin_key : Option ProtoKey
  pub submit_key : Option ProtoKey
  pub auto_renew_period : Option Duration
  pub auto_renew_account : Option AccountId

pub record SubmitMessage : Type 0 where
  pub topic_id : Option TopicId
  pub message : Bytes

-- `call_data` names a file.
pub record Ethereum : Type 0 where
  pub ethereum_data : Bytes
  pub call_data : Option ℕ

pub data BodyData : Type 0 where
  crypto_create_account : CreateAccount → BodyData
  crypto_transfer : CryptoTransfer → BodyData
  crypto_delete : CryptoDelete → BodyData
  consensus_create_topic : CreateTopic → BodyData
  consensus_submit_message : SubmitMessage → BodyData
  ethereum_transaction : Ethereum → BodyData
  other : BodyData

pub record TransactionBody : Type 0 where
  pub transaction_id : Option TransactionId
  pub node_account_id : Option AccountId
  pub transaction_fee : ℕ
  pub transaction_valid_duration : Option Duration
  pub memo : Bytes
  pub body : Option BodyData

pub data SignatureKind : Type 0 where
  ed25519 ecdsa_secp256k1 : Bytes → SignatureKind
  other : SignatureKind

pub record SigPair : Type 0 where
  pub pub_key_prefix : Bytes
  pub signature : Option SignatureKind

pub record SignedTransaction : Type 0 where
  pub body_bytes : Bytes
  pub sig_map : Option (List SigPair)

pub record Envelope : Type 0 where
  pub signed_transaction_bytes : Bytes

-- prost's functions.
pub record Protobuf : Type 0 where
  pub decode_signed_transaction : Bytes → Option SignedTransaction
  pub decode_transaction_body : Bytes → Option TransactionBody
  pub encode_to_vec : Envelope → Bytes
  pub encoded_len : Envelope → ℕ
