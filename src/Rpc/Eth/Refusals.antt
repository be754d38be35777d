-- ===== src/Rpc/Eth/Refusals.antt =====
-- A transaction that the node refuses over JSON-RPC is kept with the refusals, and nothing else
-- comes of it.
use hanvil.Prelude.{
  ℕ, ◌+◌, ◌<◌, ◌≡◌, refl, ap, sym, subst, arith, Bool, true, false, not, ◌&&◌, Option, List, Bytes,
  codes, any, none, some, ◌∙◌, Option-cases, inl, inr, ◌==◌, if◌then◌else◌, length, get_elem?,
}
use hanvil.Prelude.Result.{Result, ok, err, outcome, value, error}
use hanvil.Word.{u64_mod}
use hanvil.Units.{Address}
use hanvil.Time.{Timestamp}
use hanvil.Blocks.{B256, UnsignedTx, unsigned}
use hanvil.Accounts.{EntityId, Account}
use hanvil.Records.{Rejection, ethereum_transaction}
use hanvil.Evm.{Externals, TxEnv, Rejected, decode_signed}
use hanvil.Chain.{ChainState, Error, rejected, holds_key_for, account_by_evm}
use hanvil.Chain.Execution.{execute_and_mine, send_raw, send_unsigned, unsigned_hash}
use hanvil.Chain.Execution.Mining.{Untouched, execute_and_mine_refused}
use hanvil.Chain.Refusals.{reject, rejections_seen}
use hanvil.Chain.Refusals.Bounds.{reject_keeps_newest}
use hanvil.Rpc.{Value, Formats}
use hanvil.Rpc.Errors.{RpcError}
use hanvil.Rpc.Params.{parse_bytes}
use hanvil.Rpc.Eth.Methods.{Method, send_raw_transaction, send_transaction}
use hanvil.Rpc.Eth.{handle}
use hanvil.Rpc.Eth.Sending.{
  answered, refused, settled, sent, raw_sender, call_sender, unsigned_tx, send_raw_answer,
  send_unsigned_answer,
}

module _ {Db : Type 0} where
  same-Untouched : (s : ChainState Db) → Untouched s s
  same-Untouched s = record {
    same_accounts = refl;
    same_next_id = refl;
    same_blocks = refl;
    same_txs = refl;
    same_records = refl;
    same_refusals = refl;
  }

  -- A run that is refused leaves the state.
  abbrev LeftBy : {E : Type 0} → ChainState Db → ChainState Db × Result E B256 → Type 0
  LeftBy s (t, ok h) = Unit {0}
  LeftBy s (t, err e) = Untouched s t

  either-LeftBy :
      (b : Bool) (p q : ChainState Db × Result Error B256) (s : ChainState Db)
      → LeftBy s p
      → LeftBy s q
      → LeftBy s (if b then p else q)
  either-LeftBy true p q s h k = h
  either-LeftBy false p q s h k = k

module _ {Db : Type 0} (ext : Externals Db) where
  run-LeftBy :
      (s : ChainState Db) (o : ChainState Db × Result Error B256)
      → ((t : ChainState Db) (e : Error) → o ≡ (t, err e) → Untouched s t)
      → LeftBy s o
  run-LeftBy s (t, ok h) k = tt
  run-LeftBy s (t, err e) k = k t e refl

  send_raw-LeftBy :
      (raw : Bytes) (now : Timestamp) (s : ChainState Db) → LeftBy s (send_raw ext raw now s)
  unfolding send_raw
  send_raw-LeftBy raw now s = elim (outcome (decode_signed ext raw)) [
    | error e eq ↦ rw (eq, send_raw) (same-Untouched s)
    | value d eq ↦ rw (eq, send_raw) (run-LeftBy s _ (execute_and_mine_refused ext _ _ _ _ _ now s))
  ]

  send_unsigned-LeftBy :
      (tx : UnsignedTx) (now : Timestamp) (s : ChainState Db)
      → LeftBy s (send_unsigned ext tx now s)
  unfolding send_unsigned
  send_unsigned-LeftBy tx now s =
      either-LeftBy (not (holds_key_for s tx.from) && not (any (λ a. a == tx.from) s.impersonated))
        _ _ s (same-Untouched s) (built (ext.build _))
    where
      built :
          (m : Result Bytes TxEnv)
          → (let mined : ChainState Db × Result Error B256 = elim m [
            | err e ↦ (s, err (rejected (Rejected.other e)))
            | ok env ↦
                execute_and_mine ext
                  (unsigned_hash ext tx s)
                  (unsigned tx)
                  tx.from
                  env
                  tx.gas_price
                  now
                  s
          ] in
              LeftBy s mined)
      built (err e) = same-Untouched s
      built (ok env) = run-LeftBy s _ (
          execute_and_mine_refused ext (unsigned_hash ext tx s) (unsigned tx) tx.from env
            tx.gas_price now s)

abbrev pub id_of_account : Option Account → Option EntityId
id_of_account none = none
id_of_account (some a) = some a.id

module _ {Db : Type 0} where
  -- The account that a sender has.
  abbrev pub payer_of : ChainState Db → Option Address → Option EntityId
  payer_of s none = none
  payer_of s (some a) = id_of_account (account_by_evm s a)

module _ (formats : Formats) {Db : Type 0} (ext : Externals Db) (now : Timestamp) where
  -- The chain behind a refused send: a chain that is untouched, and one refusal more, with the
  -- message of the answer, the sender, and the sender's account if it has one.
  pub record IsKept (s s' : ChainState Db) (sender : Option Address) (e : RpcError) : Type 0 where
    pub before : ChainState Db
    pub untouched : Untouched s before
    pub kept :
        s'
        ≡ reject
            (record {
              at = now;
              kind = some ethereum_transaction;
              payer = payer_of before sender;
              status = none;
              from = sender;
              message = e.message;
            })
            before
    pub counted : rejections_seen s' ≡ rejections_seen s + 1

  -- What a refusal says.
  refused-reject :
      (sender : Option Address) (e : RpcError) (s : ChainState Db)
      → refused formats ext now sender e s
        ≡ reject
            (record {
              at = now;
              kind = some ethereum_transaction;
              payer = payer_of s sender;
              status = none;
              from = sender;
              message = e.message;
            })
            s
  unfolding refused
  refused-reject none e s = refl
  refused-reject (some a) e s = elim (Option-cases (account_by_evm s a)) [
    | inl unknown ↦ rw unknown refl
    | inr (found, known) ↦ rw known refl
  ]

  counted_one :
      (r : Rejection) (s t : ChainState Db)
      → Untouched s t
      → s.rejections_dropped + length s.rejections + 1 < u64_mod
      → rejections_seen (reject r t) ≡ rejections_seen s + 1
  unfolding rejections_seen
  counted_one r s t u room =
      let same : length t.rejections ≡ length s.rejections =
        ap (λ (x : List Rejection × ℕ × ℕ). length x.0) u.same_refusals in
      let dropped : t.rejections_dropped ≡ s.rejections_dropped =
        ap (λ (x : List Rejection × ℕ × ℕ). x.1) u.same_refusals in
      omega (arith, (reject_keeps_newest r t (omega (arith, same, dropped, room))).1, same, dropped)

  settled-IsKept :
      (s s' : ChainState Db) (sender : Option Address) (o : ChainState Db × Result RpcError B256)
      (e : RpcError)
      → LeftBy s o
      → s.rejections_dropped + length s.rejections + 1 < u64_mod
      → settled formats ext now sender o ≡ (s', answered (err e))
      → IsKept s s' sender e
  unfolding refused
  settled-IsKept s s' sender (t, ok h) e u room run = absurd (differ (ap (λ x. x.1) run))
    where
      differ : {v : Value} → answered (ok v) ≡ answered (err e) → ⊥
      differ k = cc
  settled-IsKept s s' sender (t, err e') e u room run =
      subst (λ x. IsKept s s' sender x) (same (ap (λ x. x.1) run))
        (record {
          before = t;
          untouched = u;
          kept = sym (ap (λ x. x.0) run) ∙ refused-reject sender e' t;
          counted =
              subst (λ x. rejections_seen x ≡ rejections_seen s + 1) (ap (λ x. x.0) run)
                (counted_one _ s t u room);
        })
    where
      same : answered (err e') ≡ answered (err e) → e' ≡ e
      same k = cc

  sent-LeftBy :
      (s : ChainState Db) (o : ChainState Db × Result Error B256)
      → LeftBy s o
      → LeftBy s (sent formats ext now o)
  sent-LeftBy s (t, ok h) u = u
  sent-LeftBy s (t, err e) u = u

  -- The two methods that send, and whom each takes for the sender.
  abbrev pub sending : Bool → Method
  sending true = send_raw_transaction
  sending false = send_transaction

  abbrev pub sender_of : Bool → Option Value → Option Address
  sender_of true param =
      raw_sender formats ext now (parse_bytes formats param (codes "transaction"))
  sender_of false param = call_sender formats ext now param

  raw_refused :
      (param : Option Value) (s s' : ChainState Db) (e : RpcError)
      → s.rejections_dropped + length s.rejections + 1 < u64_mod
      → send_raw_answer formats ext now param s ≡ (s', answered (err e))
      → IsKept s s' (sender_of true param) e
  unfolding send_raw_answer
  raw_refused param s s' e room run =
      settled-IsKept s s' (sender_of true param) _ e
        (tried (parse_bytes formats param (codes "transaction"))) room run
    where
      tried :
          (m : Result RpcError Bytes)
          → (let o : ChainState Db × Result RpcError B256 = elim m [
            | err e ↦ (s, err e)
            | ok bytes ↦ sent formats ext now (send_raw ext bytes now s)
          ] in
              LeftBy s o)
      tried (err e) = same-Untouched s
      tried (ok bytes) = sent-LeftBy s _ (send_raw-LeftBy ext bytes now s)

  unsigned_refused :
      (param : Option Value) (s s' : ChainState Db) (e : RpcError)
      → s.rejections_dropped + length s.rejections + 1 < u64_mod
      → send_unsigned_answer formats ext now param s ≡ (s', answered (err e))
      → IsKept s s' (sender_of false param) e
  unfolding send_unsigned_answer
  unsigned_refused param s s' e room run =
      settled-IsKept s s' (sender_of false param) _ e (tried (unsigned_tx formats ext now param s))
        room run
    where
      tried :
          (m : Result RpcError UnsignedTx)
          → (let o : ChainState Db × Result RpcError B256 = elim m [
            | err e ↦ (s, err e)
            | ok tx ↦ sent formats ext now (send_unsigned ext tx now s)
          ] in
              LeftBy s o)
      tried (err e) = same-Untouched s
      tried (ok tx) = sent-LeftBy s _ (send_unsigned-LeftBy ext tx now s)

  -- Where the count of refusals seen has room for one more in a u64: an `eth_sendRawTransaction` or
  -- `eth_sendTransaction` that is answered with an error, from reading its parameters or from the
  -- chain, leaves accounts, blocks, transactions and HAPI records, and with them the refusals so
  -- far, as they were, but for one refusal more, which has the time, the message of the error, the sender
  -- and the sender's account.
  pub handle_refused :
      (raw : Bool) (params : List Value) (s s' : ChainState Db) (e : RpcError)
      → s.rejections_dropped + length s.rejections + 1 < u64_mod
      → handle formats ext now (sending raw) params s ≡ (s', answered (err e))
      → IsKept s s' (sender_of raw (get_elem? params 0)) e
  unfolding handle
  handle_refused true params s s' e room run = raw_refused (get_elem? params 0) s s' e room run
  handle_refused false params s s' e room run =
      unsigned_refused (get_elem? params 0) s s' e room run
