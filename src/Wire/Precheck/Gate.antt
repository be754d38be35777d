-- ===== src/Wire/Precheck/Gate.antt =====
-- What a transaction that passes the prechecks is known to satisfy.
use hanvil.Prelude.{
  not, ℕ, ◌≤◌, ◌≤ℤ◌, ◌≡◌, ◌∙◌, ap, subst, Bool, true, false, Option, some, List, [], ◌∷◌, arith,
  length, all, All, ltb,
}
use hanvil.Prelude.Result.{Result, ok, ok_or, >>=-eq-ok, >>-eq-ok}
use hanvil.Word.{add_u64, sub_i64, to_i64}
use hanvil.Time.{Timestamp}
use hanvil.Accounts.{EntityId, Account, Key}
use hanvil.Records.{TxId, Transaction, Body}
use hanvil.Records.Responses.{Status}
use hanvil.Evm.{Externals}
use hanvil.Chain.{ChainState, hapi_fee, node_id, account, has_transaction_id}
use hanvil.Wire.Proto.{Protobuf, Envelope, SignedTransaction, TransactionBody}
use hanvil.Wire.{account_id, transaction_id, decode_body}
use hanvil.Wire.Signatures.{Curves, signature_pairs, required_keys, signed_by}
use hanvil.Wire.Precheck.{
  is_node, max_memo_bytes, max_valid_duration_secs, future_tolerance_secs, max_transaction_bytes,
  check_signatures, open_envelope, check_header, check_chain, checked_transaction, precheck,
}

ok_eq : {A : Type 0} (a b : A) → (let m : Result Status A = ok a in m ≡ ok b) → a ≡ b
ok_eq a b h = cc

some_of_ok : {A : Type 0} (m : Option A) (e : Status) (a : A) → ok_or m e ≡ ok a → m ≡ some a
some_of_ok m e a h = ground arith

node_of_test : (o : Option EntityId) → not (is_node o) ≡ false → o ≡ some node_id
node_of_test o h = ground arith

-- What `check_header` has checked.
check_header_facts :
    (body : TransactionBody) (now : Timestamp) (id : TxId) (duration : ℕ)
    → check_header body now ≡ ok (id, duration)
    → (account_id body.node_account_id ≡ some node_id)
      × (transaction_id body.transaction_id ≡ some id)
      × ((1 ≤ duration) × (duration ≤ max_valid_duration_secs))
      × (now.secs ≤ add_u64 id.valid_start.secs duration)
      × (sub_i64 (to_i64 id.valid_start.secs) (to_i64 now.secs) ≤ℤ future_tolerance_secs)
unfolding check_header
check_header_facts body now id duration h = (
  node_of_test (account_id body.node_account_id) (ground arith),
  ground arith,
  (ground arith, ground arith),
  ground arith,
  ground arith,
)

module _ {Db : Type 0} (ext : Externals Db) (proto : Protobuf) (curves : Curves) where
  -- The signatures of a body: every required key has signed its bytes.
  pub record IsSigned (s : ChainState Db) (signed : SignedTransaction) (id : TxId) (body : Body)
      : Type 0 where
    pub keys : List Key
    pub required : required_keys s id.payer body ≡ ok keys
    pub all_signed :
        All
          (λ k.
            signed_by curves ext.keccak256 k signed.body_bytes (signature_pairs signed.sig_map)
            ≡ true)
          keys

  all-true : (p : Key → Bool) (l : List Key) → all p l ≡ true → All (λ k. p k ≡ true) l
  all-true p [] h = tt
  all-true p (k ∷ l) h = (ground arith, all-true p l (ground arith))

  check_signatures-IsSigned :
      (s : ChainState Db) (signed : SignedTransaction) (id : TxId) (body : Body)
      → check_signatures ext curves true signed id body s ≡ ok tt
      → IsSigned s signed id body
  unfolding check_signatures
  check_signatures-IsSigned s signed id body h =
      let (keys, required, rest) = >>=-eq-ok (required_keys s id.payer body) _ h in
      record { keys = keys; required = required; all_signed = all-true _ keys (ground arith) }

  -- What is known of a transaction that the prechecks accept.
  pub record IsAccepted (s : ChainState Db) (envelope : Envelope) (now : Timestamp) (verify : Bool)
      (tx : Transaction) : Type 0 where
    pub signed : SignedTransaction
    pub body : TransactionBody
    pub opened : open_envelope proto envelope ≡ ok (signed, body)
    pub small : proto.encoded_len envelope ≤ max_transaction_bytes
    pub to_node : account_id body.node_account_id ≡ some node_id
    pub identified : transaction_id body.transaction_id ≡ some tx.id
    pub not_expired : now.secs ≤ add_u64 tx.id.valid_start.secs tx.valid_duration_seconds
    pub not_early :
        sub_i64 (to_i64 tx.id.valid_start.secs) (to_i64 now.secs) ≤ℤ future_tolerance_secs
    pub new : has_transaction_id s tx.id ≡ false
    pub duration :
        (1 ≤ tx.valid_duration_seconds) × (tx.valid_duration_seconds ≤ max_valid_duration_secs)
    pub payer : Account
    pub paid_by : account s tx.id.payer ≡ some payer
    pub alive : payer.deleted ≡ false
    pub pays : hapi_fee ≤ payer.balance
    pub memo : length tx.memo ≤ max_memo_bytes
    pub decoded : decode_body body.body ≡ ok tx.body
    pub signatures : verify ≡ true → IsSigned s signed tx.id tx.body

  open_envelope_facts :
      (envelope : Envelope) (signed : SignedTransaction) (body : TransactionBody)
      → open_envelope proto envelope ≡ ok (signed, body)
      → proto.encoded_len envelope ≤ max_transaction_bytes
  unfolding open_envelope
  open_envelope_facts envelope signed body h = ground arith

  -- What `check_chain` has checked.
  record IsCleared (s : ChainState Db) (signed : SignedTransaction) (body : TransactionBody)
      (id : TxId) (verify : Bool) (decoded : Body) : Type 0 where
    is_new : has_transaction_id s id ≡ false
    paying : Account
    found : account s id.payer ≡ some paying
    alive : paying.deleted ≡ false
    short_memo : length body.memo ≤ max_memo_bytes
    decodes : decode_body body.body ≡ ok decoded
    checked : check_signatures ext curves verify signed id decoded s ≡ ok tt
    pays : hapi_fee ≤ paying.balance

  check_chain-IsCleared :
      (s : ChainState Db) (signed : SignedTransaction) (body : TransactionBody) (id : TxId)
      (verify : Bool) (decoded : Body)
      → check_chain ext curves s signed body id verify ≡ ok decoded
      → IsCleared s signed body id verify decoded
  unfolding check_chain
  check_chain-IsCleared s signed body id verify decoded h =
      let (new, h1) = >>-eq-ok (has_transaction_id s id) Status.duplicate_transaction _ h in
      let (payer, found, h2) =
        >>=-eq-ok (ok_or (account s id.payer) Status.payer_account_not_found) _ h1 in
      let (alive, h3) = >>-eq-ok payer.deleted Status.payer_account_deleted _ h2 in
      let (memo, h4) = >>-eq-ok (ltb max_memo_bytes (length body.memo)) Status.memo_too_long _ h3 in
      let (b, decodes, h5) = >>=-eq-ok (decode_body body.body) _ h4 in
      let (unit, checked, h6) = >>=-eq-ok (check_signatures ext curves verify signed id b s) _ h5 in
      let (pays, h7) =
        >>-eq-ok (ltb payer.balance hapi_fee) Status.insufficient_payer_balance _ h6 in
      let same = ok_eq b decoded h7 in
      record {
        is_new = new;
        paying = payer;
        found = some_of_ok (account s id.payer) Status.payer_account_not_found payer found;
        alive = alive;
        short_memo = ground arith;
        decodes = decodes ∙ ap ok same;
        checked =
            subst (λ x. check_signatures ext curves verify signed id x s ≡ ok tt) same checked;
        pays = ground arith;
      }

  signatures_of :
      (s : ChainState Db) (signed : SignedTransaction) (id : TxId) (body : Body) (verify : Bool)
      → check_signatures ext curves verify signed id body s ≡ ok tt
      → verify ≡ true
      → IsSigned s signed id body
  signatures_of s signed id body true h e = check_signatures-IsSigned s signed id body h
  signatures_of s signed id body false h e = cc

  -- The parts of a successful precheck.
  pub record Accepting (s : ChainState Db) (envelope : Envelope) (now : Timestamp) (verify : Bool)
      (tx : Transaction) : Type 0 where
    pub signed : SignedTransaction
    pub body : TransactionBody
    pub id : TxId
    pub duration : ℕ
    pub decoded : Body
    pub opens : open_envelope proto envelope ≡ ok (signed, body)
    pub header : check_header body now ≡ ok (id, duration)
    pub chain : check_chain ext curves s signed body id verify ≡ ok decoded
    pub result : checked_transaction ext proto curves envelope body id duration decoded ≡ tx

  precheck-Accepting :
      (s : ChainState Db) (envelope : Envelope) (now : Timestamp) (verify : Bool) (tx : Transaction)
      → precheck ext proto curves s envelope now verify ≡ ok tx
      → Accepting s envelope now verify tx
  unfolding precheck
  precheck-Accepting s envelope now verify tx h =
      let (o, opens, h1) = >>=-eq-ok (open_envelope proto envelope) _ h in
      let (d, header, h2) = >>=-eq-ok (check_header o.1 now) _ h1 in
      let (b, chain, h3) = >>=-eq-ok (check_chain ext curves s o.0 o.1 d.0 verify) _ h2 in
      record {
        signed = o.0;
        body = o.1;
        id = d.0;
        duration = d.1;
        decoded = b;
        opens = opens;
        header = header;
        chain = chain;
        result = ok_eq _ _ h3;
      }

  -- A submission that passes the prechecks at time `now` is one envelope of at most 6,144 bytes to
  -- this node, whose body decodes to the transaction's, under an id that the chain has not seen,
  -- with a validity duration from 1 to 180 seconds that has not run out and that starts at most 60
  -- seconds ahead, a memo of at most 100 bytes, and a payer that exists, is not deleted and can pay
  -- the fee; and where signatures are verified, every required key has signed the body's bytes.
  pub precheck-IsAccepted :
      (s : ChainState Db) (envelope : Envelope) (now : Timestamp) (verify : Bool) (tx : Transaction)
      → precheck ext proto curves s envelope now verify ≡ ok tx
      → IsAccepted s envelope now verify tx
  precheck-IsAccepted s envelope now verify tx h =
      let p = precheck-Accepting s envelope now verify tx h in
      let (node, named, lasts, lives, starts) =
        check_header_facts p.body now p.id p.duration p.header in
      let cleared = check_chain-IsCleared s p.signed p.body p.id verify p.decoded p.chain in
      subst (IsAccepted s envelope now verify) p.result (record {
        signed = p.signed;
        body = p.body;
        opened = p.opens;
        small = open_envelope_facts envelope p.signed p.body p.opens;
        to_node = node;
        identified = named;
        not_expired = lives;
        not_early = starts;
        new = cleared.is_new;
        duration = lasts;
        payer = cleared.paying;
        paid_by = cleared.found;
        alive = cleared.alive;
        pays = cleared.pays;
        memo = cleared.short_memo;
        decoded = cleared.decodes;
        signatures = signatures_of s p.signed p.id p.decoded verify cleared.checked;
      })
