-- ===== src/Chain/Apply.antt =====
-- `apply_hapi` of src/state/mod.rs: the fee, the body, and the record.
pub mod Books
pub mod Bodies
pub mod Conservation
pub mod Filing
pub mod Topics
use hanvil.Prelude.{
  ℕ, Bool, true, false, Option, none, some, [], ◌∷◌, ◌++◌, Bytes, replicate, length, ltb, ◌==◌,
  if◌then◌else◌, is_some,
}
use hanvil.Prelude.Result.{Result, ok, err, ◌>>◌, refuse_if}
use hanvil.Prelude.Eq.{nat_eq}
use hanvil.Word.{add_u64}
use hanvil.Maps.BTreeMap
use hanvil.Maps.HashMap
use hanvil.Units.{Tinybar, Address}
use hanvil.Time.{Timestamp}
use hanvil.Accounts.{EntityId, Account, Key}
use hanvil.Blocks.{be_bytes, TxRecord}
use hanvil.Records.{Topic, Record, Transaction, Body, tx_id_has_eq, kind, running_hash_v3}
use hanvil.Records.Responses.{Status}
use hanvil.Evm.{Externals}
use hanvil.Chain.{
  ChainState, hapi_fee, fee_collector, insert_account, allocate_id, balance_of, is_live,
  transaction,
}
use hanvil.Chain.Clock.{next_consensus}
use hanvil.Chain.Transfers.{move_tinybar, apply_transfer, aggregate}
use hanvil.Chain.Execution.{send_raw}

abbrev pub zero_digest : Bytes
zero_digest = replicate 48 0

-- What becomes of a body's outcome. The source's bodies change the state in place; each returns its
-- errors before its first write, so an error carries no state here, and that is part of the model and
-- not shown.
abbrev pub settle :
    {Db : Type 0}
    → ChainState Db
    → Record
    → Result Status (ChainState Db × Record)
    → ChainState Db × Record × Option Status
settle s r (ok (s', r')) = (s', r', none)
settle s r (err e) = (s, r, some e)

-- The account that `cryptoCreateAccount` makes, before it is funded.
abbrev pub new_account : EntityId → Key → Option Address → Bytes → Timestamp → Account
new_account i key alias memo at = record {
  id = i;
  key = some key;
  alias = alias;
  balance = 0;
  nonce = 0;
  deleted = false;
  memo = memo;
  created_at = at;
  private_key_hex = none;
}

-- The topic that `consensusCreateTopic` makes.
abbrev pub new_topic :
    EntityId → Bytes → Option Key → Option Key → ℕ → Option EntityId → Timestamp → Topic
new_topic i memo admin submit period renew consensus = record {
  id = i;
  memo = memo;
  admin_key = admin;
  submit_key = submit;
  sequence_number = 0;
  running_hash = zero_digest;
  created_at = consensus;
  auto_renew_period = period;
  auto_renew_account = renew;
  messages = [];
}

unfoldable pub blank_record : Transaction → Timestamp → Record
unfolding kind
blank_record tx consensus = record {
  id = tx.id;
  kind = kind tx.body;
  consensus_timestamp = consensus;
  status = Status.success;
  charged_fee = hapi_fee;
  max_fee = tx.max_fee;
  memo = tx.memo;
  hash = tx.hash;
  valid_duration_seconds = tx.valid_duration_seconds;
  transfers = [];
  created_account = none;
  created_alias = none;
  created_topic = none;
  topic_sequence_number = 0;
  topic_running_hash = [];
  ethereum_hash = [];
}

abbrev pub status_of : Option Status → Status → Status
status_of none before = before
status_of (some status) before = status

module _ {Db : Type 0} where
  abbrev pub alias_taken : ChainState Db → Option Address → Bool
  alias_taken s none = false
  alias_taken s (some a) = HashMap.contains_key a s.by_evm

  unfoldable pub apply_create :
      Key
      → Tinybar
      → Option Address
      → Bytes
      → ChainState Db
      → Record
      → Timestamp
      → Result Status (ChainState Db × Record)
  unfolding balance_of allocate_id insert_account move_tinybar
  apply_create key initial alias memo s r consensus = do
    refuse_if (alias_taken s alias) Status.alias_already_assigned
    refuse_if (ltb (balance_of s r.id.payer) initial) Status.insufficient_payer_balance
    let (i, s1) = allocate_id s
    let (s2, legs) =
        move_tinybar r.id.payer i initial
          (insert_account (new_account i key alias memo consensus) s1) r.transfers
    ok (s2, record r { transfers = legs; created_account = some i; created_alias = alias })

  unfoldable pub mark_deleted : EntityId → ChainState Db → ChainState Db
  mark_deleted i s = elim (BTreeMap.get i s.accounts) [
    | none ↦ s
    | some a ↦ record s { accounts = BTreeMap.insert i (record a { deleted = true }) s.accounts }
  ]

  unfoldable pub apply_delete :
      EntityId → EntityId → ChainState Db → Record → Result Status (ChainState Db × Record)
  unfolding is_live balance_of move_tinybar mark_deleted
  apply_delete account to s r = do
    refuse_if (account == to) Status.invalid_transfer_account_id
    refuse_if (if is_some (BTreeMap.get account s.accounts) then false else true)
        Status.invalid_account_id
    refuse_if (if is_live s account then false else true) Status.account_deleted
    refuse_if (if is_live s to then false else true) Status.invalid_transfer_account_id
    let (s1, legs) = move_tinybar account to (balance_of s account) s r.transfers
    ok (mark_deleted account s1, record r { transfers = legs })

  unfoldable pub apply_create_topic :
      Bytes
      → Option Key
      → Option Key
      → ℕ
      → Option EntityId
      → ChainState Db
      → Record
      → Timestamp
      → ChainState Db × Record
  unfolding allocate_id
  apply_create_topic memo admin submit period renew s r consensus =
      let (i, s1) = allocate_id s in
      (
        record s1 {
          topics =
              BTreeMap.insert i (new_topic i memo admin submit period renew consensus) s1.topics;
        },
        record r { created_topic = some i },
      )

  -- What an `ethereumTransaction` that was mined, or not, leaves in its record.
  abbrev pub mined :
      ChainState Db → Record → Option TxRecord → ChainState Db × Record × Option Status
  mined s r none = (s, r, some Status.contract_revert_executed)
  mined s r (some tx) = (
    s,
    record r { consensus_timestamp = tx.consensus_timestamp },
    if tx.receipt.success then none else some Status.contract_revert_executed,
  )

  -- An `ethereumTransaction` takes the timestamp that the EVM path allocates.
  unfoldable pub consensus_for : Body → Timestamp → ChainState Db → Timestamp × ChainState Db
  unfolding next_consensus
  consensus_for (Body.ethereum rlp) now s = (now, s)
  consensus_for _ now s = next_consensus now s

  -- The record under its id, behind the older ones.
  unfoldable pub file_record : Record → ChainState Db → ChainState Db
  file_record r s = record s {
    hapi_by_id = HashMap.insert r.id (length s.hapi_records) s.hapi_by_id;
    hapi_records = s.hapi_records ++ r ∷ [];
  }

module _ {Db : Type 0} (ext : Externals Db) where
  -- A topic with one more message.
  unfoldable pub with_message : Topic → EntityId → EntityId → Timestamp → Bytes → Topic
  unfolding add_u64 running_hash_v3
  with_message t topic payer consensus message =
      let n = add_u64 t.sequence_number 1 in
      let hash = running_hash_v3 ext.sha384 t.running_hash payer topic consensus n message in
      record t {
        sequence_number = n;
        running_hash = hash;
        messages =
            t.messages
            ++ record {
              sequence_number = n;
              message = message;
              running_hash = hash;
              consensus_timestamp = consensus;
              payer = payer;
            }
              ∷ [];
      }

  unfoldable pub apply_submit :
      EntityId → Bytes → ChainState Db → Record → Timestamp → Result Status (ChainState Db × Record)
  unfolding with_message
  apply_submit topic [] s r consensus = err Status.invalid_topic_message
  apply_submit topic (b ∷ bs) s r consensus = elim (BTreeMap.get topic s.topics) [
    | none ↦ err Status.invalid_topic_id
    | some t ↦
        (let t' = with_message t topic r.id.payer consensus (b ∷ bs) in
          ok (
            record s { topics = BTreeMap.insert topic t' s.topics },
            record r {
              topic_sequence_number = t'.sequence_number;
              topic_running_hash = t'.running_hash;
            },
          ))
  ]

  unfoldable pub apply_ethereum :
      Bytes → ChainState Db → Record → Timestamp → ChainState Db × Record × Option Status
  unfolding send_raw next_consensus be_bytes
  apply_ethereum rlp s r consensus =
      let (s1, outcome) = send_raw ext rlp consensus s in
      elim outcome [
        | ok hash ↦ mined s1 (record r { ethereum_hash = be_bytes 32 hash }) (transaction s1 hash)
        | err e ↦
            (let (at, s2) = next_consensus consensus s1 in
              (s2, record r { consensus_timestamp = at }, some Status.invalid_transaction_body))
      ]

  -- The state, the record, and the status that stopped the body, if one did.
  unfoldable pub apply_body :
      Body → ChainState Db → Record → Timestamp → ChainState Db × Record × Option Status
  unfolding apply_create apply_transfer apply_delete apply_create_topic apply_submit apply_ethereum
  apply_body (Body.create_account key initial alias memo) s r consensus =
      settle s r (apply_create key initial alias memo s r consensus)
  apply_body (Body.transfer amounts) s r consensus =
      settle s r (apply_transfer amounts s r consensus)
  apply_body (Body.delete account to) s r consensus = settle s r (apply_delete account to s r)
  apply_body (Body.create_topic memo admin submit period renew) s r consensus =
      settle s r (ok (apply_create_topic memo admin submit period renew s r consensus))
  apply_body (Body.submit_message topic message) s r consensus =
      settle s r (apply_submit topic message s r consensus)
  apply_body (Body.ethereum rlp) s r consensus = apply_ethereum rlp s r consensus

  unfoldable pub apply_hapi : Transaction → Timestamp → ChainState Db → Record × ChainState Db
  unfolding consensus_for blank_record move_tinybar apply_body aggregate file_record
  apply_hapi tx now s =
      let (consensus, s1) = consensus_for tx.body now s in
      let r0 = blank_record tx consensus in
      let (s2, legs) = move_tinybar tx.id.payer fee_collector hapi_fee s1 r0.transfers in
      let (s3, r3, stopped) = apply_body tx.body s2 (record r0 { transfers = legs }) consensus in
      let r4 = record r3 {
        status = status_of stopped r3.status;
        transfers = aggregate r3.transfers;
      } in
      (r4, file_record r4 s3)
