-- ===== src/Tests/Samples.antt =====
-- A small chain, its dependencies as plain functions, and a submission to it.
use hanvil.Prelude.{
  ℕ, ◌+◌, refl, arith, pos, negsuc, true, false, none, some, [], ◌∷◌, Bytes, ◌==◌, length,
  replicate, codes,
}
use hanvil.Prelude.Result.{ok, err}
use hanvil.Maps.BTreeMap
use hanvil.Time.{at_secs}
use hanvil.Units.{Tinybar}
use hanvil.Accounts.{EntityId, Account, Key}
use hanvil.Blocks.{Block, Filter}
use hanvil.Records.{TxId, Transaction, Body, AccountRef}
use hanvil.Evm.{Externals, DbAccount, TxEnv, Verdict, EvmError, Rejected}
use hanvil.Chain.{ChainState, Chain, Error, rejected}
use hanvil.Chain.Supply.{IsSound}
use hanvil.Wire.Proto
use hanvil.Wire.Proto.{Protobuf, Envelope, AccountKind, BodyData, SignatureKind, KeyKind}
use hanvil.Wire.Signatures.{Curves}

-- Hashes that tell short strings apart, and a machine on which every call succeeds.
abbrev digest : Bytes → ℕ
digest [] = 0
digest (b ∷ bs) = b + 3 + digest bs

abbrev pub no_db : DbAccount
no_db = record { not_existing = true; balance = 0; nonce = 0; code = none; storage = [] }

abbrev pub machine : Externals ℕ
machine = record {
  keccak256 = digest;
  sha384 = λ b. b;
  accrue_bloom = λ a b. a + b;
  accrue_log = λ a log. a + log.address;
  decode_2718 = λ b. err b;
  recover_signer = λ e. err [];
  build = λ env. ok env;
  build_fill = λ env. env;
  transact = λ cfg block env db. (
    db + 1,
    ok (record {
      result = record { gas_used = 21_000; logs = []; verdict = Verdict.call [] };
      state =
          record { address = 1003; is_touched = true; balance = 700; nonce = 1; has_code = false }
          ∷ [];
    }),
  );
  commit = λ state db. db + 1;
  cached = λ a db. none;
  load_account = λ a db. no_db;
  put_account = λ a entry db. db + 1;
}

-- The same machine, on which every transaction is refused.
abbrev pub refusing : Externals ℕ
refusing = record machine { transact = λ cfg block env db. (db, err (EvmError.other [])) }

abbrev pub key_bytes : Bytes
key_bytes = replicate 33 2

abbrev pub person : EntityId → Tinybar → Account
person i balance = record {
  id = i;
  key = some (Key.ecdsa_secp256k1 key_bytes);
  alias = none;
  balance = balance;
  nonce = 0;
  deleted = false;
  memo = [];
  created_at = at_secs 0 0;
  private_key_hex = none;
}

abbrev pub block_at : ℕ → ℕ → Block
block_at number timestamp = record {
  number = number;
  hash = 100 + number;
  parent_hash = 99 + number;
  timestamp = timestamp;
  consensus_timestamp = at_secs timestamp 0;
  gas_limit = 15_000_000;
  gas_used = 0;
  base_fee = 47;
  transactions = [];
  logs_bloom = 0;
}

-- The fee collector and two users, one mined block behind genesis.
abbrev pub town : ChainState ℕ
town = record {
  chain_id = 298;
  gas_price = 47;
  accounts = (98, person 98 0) ∷ (1002, person 1002 1_000_000) ∷ (1003, person 1003 500) ∷ [];
  by_evm = (98, 98) ∷ (1002, 1002) ∷ (1003, 1003) ∷ [];
  contracts = [];
  contract_by_evm = [];
  next_id = 1004;
  db = 0;
  blocks = block_at 0 1_000 ∷ block_at 1 1_005 ∷ [];
  txs = [];
  time_offset = pos 0;
  next_timestamp = none;
  last_consensus = at_secs 1_005 0;
  impersonated = [];
  topics = [];
  hapi_records = [];
  rejections = [];
  rejections_dropped = 0;
  max_rejections = 2;
  hapi_by_id = [];
  next_snapshot = 1;
  filters = (1, Filter.blocks 1) ∷ [];
  next_filter = 1;
}

abbrev pub town_chain : Chain ℕ
town_chain = record { state = town; snapshots = [] }

pub town-IsSound : IsSound town
unfolding BTreeMap.get
town-IsSound = record {
  fresh = λ i h. ground arith;
  user_ids = omega arith;
  collector = refl;
  bounded = omega arith;
}

abbrev pub first_id : TxId
first_id = record { payer = 1002; valid_start = at_secs 1_000 7; nonce = pos 0; scheduled = false }

-- 300 tinybar from one user to the other.
abbrev pub payment : Transaction
payment = record {
  id = first_id;
  memo = codes "rent";
  max_fee = 100_000;
  hash = 1 ∷ 2 ∷ 3 ∷ [];
  valid_duration_seconds = 120;
  body = Body.transfer ((AccountRef.id 1002, negsuc 299) ∷ (AccountRef.id 1003, pos 300) ∷ []);
}

-- More than the payer has.
abbrev pub overdraft : Transaction
overdraft = record payment {
  body = Body.transfer ((AccountRef.id 1003, negsuc 599) ∷ (AccountRef.id 1002, pos 600) ∷ []);
}

abbrev account_num : ℕ → Proto.AccountId
account_num n = record { account = some (AccountKind.account_num (pos n)) }

abbrev pub payment_body : Proto.TransactionBody
payment_body = record {
  transaction_id = some (record {
    transaction_valid_start = some (record { seconds = pos 1_000; nanos = pos 7 });
    account_id = some (account_num 1002);
    scheduled = false;
    nonce = pos 0;
  });
  node_account_id = some (account_num 3);
  transaction_fee = 100_000;
  transaction_valid_duration = some (pos 120);
  memo = codes "rent";
  body = some (
      BodyData.crypto_transfer (record {
        transfers = some (
            record { account_id = some (account_num 1002); amount = negsuc 299 }
            ∷ record { account_id = some (account_num 1003); amount = pos 300 }
            ∷ []);
        token_transfers = 0;
      }));
}

-- One signed message, whatever the bytes.
abbrev pub codec : Protobuf
codec = record {
  decode_signed_transaction = λ b. some (record {
    body_bytes = b;
    sig_map = some (
        record {
          pub_key_prefix = 2 ∷ 2 ∷ [];
          signature = some (SignatureKind.ecdsa_secp256k1 (9 ∷ []));
        }
        ∷ []);
  });
  decode_transaction_body = λ b. some payment_body;
  encode_to_vec = λ e. e.signed_transaction_bytes;
  encoded_len = λ e. length e.signed_transaction_bytes;
}

abbrev pub curves : Curves
curves = record {
  key_from_sec1 = λ b. some b;
  signature_from_slice = λ b. some b;
  normalize_s = λ b. none;
  verify_prehash = λ key hash signature. length signature == 1;
  ed25519_key = λ b. none;
  ed25519_verify = λ key body signature. false;
}

abbrev pub envelope : Envelope
envelope = record { signed_transaction_bytes = 1 ∷ 2 ∷ 3 ∷ [] }

-- What the envelope's checks make of it.
abbrev pub received : Transaction
received = record payment { hash = 1 ∷ 2 ∷ 3 ∷ [] }

abbrev pub sample_env : TxEnv
sample_env = record {
  tx_type = 0;
  caller = 1002;
  nonce = 0;
  gas_limit = 50_000;
  gas_price = 47;
  to = some 1003;
  value = 200;
  input = [];
  chain_id = some 298;
  access_list = none;
  gas_priority_fee = none;
}

-- What `refusing` says.
abbrev pub no_reason : Error
no_reason = rejected (Rejected.other [])
