-- ===== src/Accounts.antt =====
-- src/state/accounts.rs: accounts and their identities. An entity id is its number, a u64.
use hanvil.Prelude.{ℕ, Bool, Option, none, some, Bytes, ◌++◌, codes}
use hanvil.Word.{decimal}
use hanvil.Units.{Tinybar, Address, long_zero_address}
use hanvil.Time.{Timestamp}

abbrev pub EntityId : Type 0
EntityId = ℕ

-- The bytes of a compressed secp256k1 key (33) or of an ed25519 key (32).
pub data Key : Type 0 where
  ecdsa_secp256k1 ed25519 : Bytes → Key

pub record Account : Type 0 where
  pub id : EntityId
  pub key : Option Key
  pub alias : Option Address
  pub balance : Tinybar
  pub nonce : ℕ
  pub deleted : Bool
  pub memo : Bytes
  pub created_at : Timestamp
  pub private_key_hex : Option Bytes

-- The address that the EVM sees: the alias, else the long-zero form.
unfoldable pub evm_address : Account → Address
unfolding long_zero_address
evm_address a = elim a.alias [ none ↦ long_zero_address a.id | some x ↦ x ]

-- `0.0.N`
unfoldable pub entity_text : EntityId → Bytes
unfolding decimal
entity_text id = codes "0.0." ++ decimal id
