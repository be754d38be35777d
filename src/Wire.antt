-- ===== src/Wire.antt =====
-- src/hapi/wire.rs: what a transaction's protobuf body says, read into the chain's own types.
pub mod Proto
pub mod Signatures
pub mod Precheck
use hanvil.Prelude.{
  ℕ, suc, ◌+◌, ◌*◌, ◌-◌, ◌^◌, ℤ, pos, negsuc, pos_part, Bool, true, false, Option, none, some, List,
  [], ◌∷◌, Bytes, ltb, ◌==◌, if◌then◌else◌, length,
}
use hanvil.Prelude.Result.{Result, ok, err, ◌>>=◌, ◌>>◌, ok_or, refuse_if}
use hanvil.Word.{u64_mod}
use hanvil.Units.{Address}
use hanvil.Time.{Timestamp}
use hanvil.Accounts.{EntityId, Key}
use hanvil.Records.{TxId, AccountRef, Body}
use hanvil.Records.Responses.{Status}
use Proto
use Proto.{AccountKind, KeyKind, BodyData, AccountAmount}

-- `num as u64` for an i64
unfoldable pub as_u64 : ℤ → ℕ
as_u64 (pos n) = n
as_u64 (negsuc n) = u64_mod - suc n

-- the number that the bytes write, behind `acc`
unfoldable pub address_from : ℕ → Bytes → Address
address_from acc [] = acc
address_from acc (b ∷ bs) = address_from (acc * 256 + b) bs

abbrev number_of : Option AccountKind → Option EntityId
number_of none = none
number_of (some (AccountKind.account_num n)) = some (as_u64 n)
number_of (some (AccountKind.alias bytes)) = none

unfoldable pub account_id : Option Proto.AccountId → Option EntityId
unfolding as_u64
account_id none = none
account_id (some i) = number_of i.account

abbrev ref_of : Option AccountKind → Option AccountRef
ref_of none = none
ref_of (some (AccountKind.account_num n)) = some (AccountRef.id (as_u64 n))
ref_of (some (AccountKind.alias bytes)) =
    if length bytes == 20 then some (AccountRef.alias (address_from 0 bytes)) else none

unfoldable pub account_ref : Option Proto.AccountId → Option AccountRef
unfolding as_u64 address_from
account_ref none = none
account_ref (some i) = ref_of i.account

unfoldable pub topic_id : Option Proto.TopicId → Option EntityId
unfolding as_u64
topic_id none = none
topic_id (some n) = some (as_u64 n)

-- `u64::try_from` and `u32::try_from` on the two parts
unfoldable pub timestamp : Option Proto.ProtoTimestamp → Option Timestamp
timestamp none = none
timestamp (some t) = elim t.seconds [
  | negsuc n ↦ none
  | pos secs ↦ elim t.nanos [
    | negsuc n ↦ none
    | pos nanos ↦ some (record { secs = secs; nanos = nanos })
  ]
]

unfoldable pub transaction_id : Option Proto.TransactionId → Option TxId
unfolding account_id timestamp
transaction_id none = none
transaction_id (some i) = elim (account_id i.account_id) [
  | none ↦ none
  | some payer ↦ elim (timestamp i.transaction_valid_start) [
    | none ↦ none
    | some start ↦
        some
          (record { payer = payer; valid_start = start; nonce = i.nonce; scheduled = i.scheduled })
  ]
]

abbrev key_of : Option KeyKind → Option Key
key_of none = none
key_of (some (KeyKind.ed25519 bytes)) =
    if length bytes == 32 then some (Key.ed25519 bytes) else none
key_of (some (KeyKind.ecdsa_secp256k1 bytes)) =
    if length bytes == 33 then some (Key.ecdsa_secp256k1 bytes) else none
key_of (some KeyKind.other) = none

unfoldable pub key_from : Option Proto.ProtoKey → Option Key
key_from none = none
key_from (some k) = key_of k.key

-- `d.seconds.max(0) as u64`, or the default
abbrev pub seconds_or : ℕ → Option Proto.Duration → ℕ
seconds_or default none = default
seconds_or default (some d) = pos_part d

abbrev alias_of : Bytes → Result Status (Option Address)
alias_of [] = ok none
alias_of (b ∷ bs) =
    if length (b ∷ bs) == 20 then ok (some (address_from 0 (b ∷ bs))) else err Status.bad_encoding

unfoldable pub read_amounts : List AccountAmount → Result Status (List (AccountRef × ℤ))
unfolding account_ref
read_amounts [] = ok []
read_amounts (e ∷ es) = do
  account ← ok_or (account_ref e.account_id) Status.invalid_account_id
  rest ← read_amounts es
  ok ((account, e.amount) ∷ rest)

abbrev amounts_of : Option (List AccountAmount) → List AccountAmount
amounts_of none = []
amounts_of (some l) = l

unfoldable pub decode_body : Option BodyData → Result Status Body
unfolding address_from account_id topic_id key_from read_amounts
decode_body (some (BodyData.crypto_create_account c)) = do
  key ← ok_or (key_from c.key) Status.key_required
  alias ← alias_of c.alias
  ok (Body.create_account key c.initial_balance alias c.memo)
decode_body (some (BodyData.crypto_transfer t)) = do
  refuse_if (ltb 0 t.token_transfers) Status.not_supported
  amounts ← read_amounts (amounts_of t.transfers)
  ok (Body.transfer amounts)
decode_body (some (BodyData.crypto_delete d)) = do
  account ← ok_or (account_id d.delete_account_id) Status.invalid_account_id
  to ← ok_or (account_id d.transfer_account_id) Status.invalid_transfer_account_id
  ok (Body.delete account to)
decode_body (some (BodyData.consensus_create_topic c)) = ok (
    Body.create_topic c.memo (key_from c.admin_key) (key_from c.submit_key)
      (seconds_or 0 c.auto_renew_period) (account_id c.auto_renew_account))
decode_body (some (BodyData.consensus_submit_message m)) = do
  topic ← ok_or (topic_id m.topic_id) Status.invalid_topic_id
  ok (Body.submit_message topic m.message)
decode_body (some (BodyData.ethereum_transaction e)) = elim e.call_data [
  | none ↦ ok (Body.ethereum e.ethereum_data)
  | some file ↦ err Status.not_supported
]
decode_body (some BodyData.other) = err Status.not_supported
decode_body none = err Status.invalid_transaction_body
