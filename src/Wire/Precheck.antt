-- ===== src/Wire/Precheck.antt =====
-- `submit` of src/hapi/wire.rs: the prechecks in their order, and the refusal that is kept.
pub mod Gate
pub mod Once
use hanvil.Prelude.{
  ℕ, ℤ, pos, ltb_ℤ, Bool, true, false, ◌||◌, not, Option, none, some, [], ltb, ◌==◌, length, all,
}
use hanvil.Prelude.Result.{Result, ok, err, ◌>>=◌, ◌>>◌, ok_or, refuse_if}
use hanvil.Word.{to_i64, sub_i64, add_u64}
use hanvil.Time.{Timestamp}
use hanvil.Accounts.{EntityId}
use hanvil.Records.{TxId, Body, BodyKind, Transaction, Record, tx_id_has_eq, kind}
use hanvil.Records.Responses.{Status}
use hanvil.Evm.{Externals}
use hanvil.Chain.{ChainState, node_id, hapi_fee, account, has_transaction_id}
use hanvil.Chain.Refusals.{reject}
use hanvil.Chain.Apply.{apply_hapi}
use hanvil.Wire.Proto.{Protobuf, Envelope, SignedTransaction, TransactionBody}
use hanvil.Wire.{account_id, transaction_id, decode_body, seconds_or}
use hanvil.Wire.Signatures.{Curves, signature_pairs, required_keys, signed_by}

abbrev pub future_tolerance_secs : ℤ
future_tolerance_secs = pos 60

abbrev pub max_valid_duration_secs : ℕ
max_valid_duration_secs = 180

abbrev pub max_transaction_bytes : ℕ
max_transaction_bytes = 6_144

abbrev pub max_memo_bytes : ℕ
max_memo_bytes = 100

abbrev is_node : Option EntityId → Bool
is_node none = false
is_node (some i) = i == node_id

-- What the refused submission was, as far as it decodes.
abbrev pub identify_body : Option TransactionBody → Option BodyKind × Option EntityId
identify_body none = (none, none)
identify_body (some body) = (
  elim (decode_body body.body) [ err e ↦ none | ok b ↦ some (kind b) ],
  elim (transaction_id body.transaction_id) [ none ↦ none | some i ↦ some i.payer ],
)

-- Node, id, duration and start.
unfoldable pub check_header : TransactionBody → Timestamp → Result Status (TxId × ℕ)
unfolding account_id transaction_id to_i64 sub_i64 add_u64
check_header body now = do
  refuse_if (not (is_node (account_id body.node_account_id))) Status.invalid_node_account
  id ← ok_or (transaction_id body.transaction_id) Status.invalid_transaction_id
  let duration = seconds_or 120 body.transaction_valid_duration
  refuse_if (duration == 0 || ltb max_valid_duration_secs duration)
      Status.invalid_transaction_duration
  refuse_if (ltb_ℤ future_tolerance_secs (sub_i64 (to_i64 id.valid_start.secs) (to_i64 now.secs)))
      Status.invalid_transaction_start
  refuse_if (ltb (add_u64 id.valid_start.secs duration) now.secs) Status.transaction_expired
  ok (id, duration)

module _ (proto : Protobuf) where
  unfoldable pub identify : Envelope → Option BodyKind × Option EntityId
  unfolding decode_body transaction_id kind
  identify envelope = elim (proto.decode_signed_transaction envelope.signed_transaction_bytes) [
    | none ↦ (none, none)
    | some signed ↦ identify_body (proto.decode_transaction_body signed.body_bytes)
  ]

  -- The body that an envelope carries.
  unfoldable pub open_envelope : Envelope → Result Status (SignedTransaction × TransactionBody)
  open_envelope envelope = do
    refuse_if (length envelope.signed_transaction_bytes == 0) Status.invalid_transaction
    refuse_if (ltb max_transaction_bytes (proto.encoded_len envelope)) Status.transaction_oversize
    signed ←
        ok_or (proto.decode_signed_transaction envelope.signed_transaction_bytes)
          Status.invalid_transaction
    body ← ok_or (proto.decode_transaction_body signed.body_bytes) Status.invalid_transaction_body
    ok (signed, body)

module _ {Db : Type 0} (ext : Externals Db) (curves : Curves) where
  unfoldable pub check_signatures :
      Bool → SignedTransaction → TxId → Body → ChainState Db → Result Status (Unit {0})
  unfolding signature_pairs required_keys signed_by
  check_signatures false signed id body s = ok tt
  check_signatures true signed id body s = do
    let pairs = signature_pairs signed.sig_map
    keys ← required_keys s id.payer body
    refuse_if (not (all (λ k. signed_by curves ext.keccak256 k signed.body_bytes pairs) keys))
        Status.invalid_signature

  -- Duplicate, payer, memo, body, signatures, balance.
  unfoldable pub check_chain :
      ChainState Db → SignedTransaction → TransactionBody → TxId → Bool → Result Status Body
  unfolding decode_body check_signatures
  check_chain s signed body id verify = do
    refuse_if (has_transaction_id s id) Status.duplicate_transaction
    payer ← ok_or (account s id.payer) Status.payer_account_not_found
    refuse_if payer.deleted Status.payer_account_deleted
    refuse_if (ltb max_memo_bytes (length body.memo)) Status.memo_too_long
    decoded ← decode_body body.body
    check_signatures verify signed id decoded s
    refuse_if (ltb payer.balance hapi_fee) Status.insufficient_payer_balance
    ok decoded

module _ {Db : Type 0} (ext : Externals Db) (proto : Protobuf) (curves : Curves) where
  abbrev pub checked_transaction : Envelope → TransactionBody → TxId → ℕ → Body → Transaction
  checked_transaction envelope body id duration decoded = record {
    id = id;
    memo = body.memo;
    max_fee = body.transaction_fee;
    hash = ext.sha384 (proto.encode_to_vec envelope);
    valid_duration_seconds = duration;
    body = decoded;
  }

  -- The transaction that passes every precheck.
  unfoldable pub precheck : ChainState Db → Envelope → Timestamp → Bool → Result Status Transaction
  unfolding open_envelope check_header check_chain
  precheck s envelope now verify = do
    opened ← open_envelope proto envelope
    header ← check_header (opened.1) now
    decoded ← check_chain ext curves s (opened.0) (opened.1) (header.0) verify
    ok (checked_transaction envelope (opened.1) (header.0) (header.1) decoded)

  unfoldable pub submit :
      ChainState Db → Envelope → Timestamp → Bool → ChainState Db × Result Status Record
  unfolding identify precheck apply_hapi reject
  submit s envelope now verify = elim (precheck s envelope now verify) [
    | ok tx ↦ (let (r, s') = apply_hapi ext tx now s in (s', ok r))
    | err status ↦
        (let (kind, payer) = identify proto envelope in
          (
            reject
                (record {
                  at = now;
                  kind = kind;
                  payer = payer;
                  status = some status;
                  from = none;
                  message = [];
                })
                s,
            err status,
          ))
  ]
