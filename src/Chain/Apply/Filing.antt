-- ===== src/Chain/Apply/Filing.antt =====
-- The record that `apply_hapi` files.
use hanvil.Prelude.{
  ℕ, ℤ, Bytes, ◌<◌, ◌≡◌, refl, ◌∙◌, ap, sym, subst, true, false, Option, some, List, [], ◌∷◌, arith,
  length, is_some, get_elem?-append_end, get_elem?-append_left, if◌then◌else◌, Option-cases, inl,
  inr, ltb, ◌==◌,
}
use hanvil.Prelude.Result.{Result, ok, err, >>-eq-ok, >>=-eq-ok}
use hanvil.Prelude.Eq.{beq_refl}
use hanvil.Maps.HashMap
use hanvil.Maps.BTreeMap
use hanvil.Time.{Timestamp}
use hanvil.Units.{Tinybar, Address}
use hanvil.Accounts.{EntityId, Key}
use hanvil.Records.{AccountRef, Record, Transaction, Body, TxId, tx_id_eq, tx_id_has_eq}
use hanvil.Records.Responses.{Status}
use hanvil.Evm.{Externals}
use hanvil.Chain.{
  ChainState, fee_collector, hapi_fee, hapi_record, has_transaction_id, balance_of, is_live,
}
use hanvil.Chain.Transfers.{move_tinybar, apply_transfer, check_transfer, settle_transfer}
use hanvil.Chain.Apply.{
  settle, alias_taken, apply_create, apply_delete, apply_create_topic, apply_submit, apply_ethereum,
  apply_body, file_record, blank_record, consensus_for, apply_hapi,
}

-- A body leaves the id and the status of its record alone.
pub record KeepsIdentity (r r' : Record) : Type 0 where
  pub same_id : r'.id ≡ r.id
  pub same_status : r'.status ≡ r.status

ok_eq : {A : Type 0} (a b : A) → (let m : Result Status A = ok a in m ≡ ok b) → a ≡ b
ok_eq a b h = cc

module _ {Db : Type 0} where
  settle-KeepsIdentity :
      (s : ChainState Db) (r : Record) (m : Result Status (ChainState Db × Record))
      → ((p : ChainState Db × Record) → m ≡ ok p → KeepsIdentity r p.1)
      → KeepsIdentity r (settle s r m).1
  settle-KeepsIdentity s r (ok (s', r')) h = h (s', r') refl
  settle-KeepsIdentity s r (err e) h = record { same_id = refl; same_status = refl }

  -- An index of the records names one of them.
  pub record IsIndexed (s : ChainState Db) : Type 0 where
    pub in_range :
        (i : TxId) (n : ℕ) → HashMap.get i s.hapi_by_id ≡ some n → n < length s.hapi_records

  pub file_record-lookup :
      (r : Record) (s : ChainState Db) (j : TxId)
      → IsIndexed s
      → hapi_record (file_record r s) j ≡ (if tx_id_eq r.id j then some r else hapi_record s j)
  unfolding hapi_record file_record HashMap.insert HashMap.get
  file_record-lookup r s j v = elim (Option-cases (HashMap.get j s.hapi_by_id)) [
    | inl e ↦ ground (arith, get_elem?-append_end s.hapi_records r, e)
    | inr (n, e) ↦ ground (
      arith,
      get_elem?-append_end s.hapi_records r,
      get_elem?-append_left s.hapi_records (r ∷ []) n (v.in_range j n e),
      e,
    )
  ]

  pub file_record-has :
      (r : Record) (s : ChainState Db)
      → (hapi_record (file_record r s) r.id ≡ some r)
        × (has_transaction_id (file_record r s) r.id ≡ true)
  unfolding hapi_record file_record HashMap.insert HashMap.get
  file_record-has r s = (
    ground (arith, get_elem?-append_end s.hapi_records r, beq_refl r.id),
    ground (arith, beq_refl r.id),
  )

  kept :
      (r : Record) (q p : ChainState Db × Record)
      → (let m : Result Status (ChainState Db × Record) = ok q in m ≡ ok p)
      → KeepsIdentity r q.1
      → KeepsIdentity r p.1
  kept r q p h k = subst (λ x. KeepsIdentity r x.1) (ok_eq q p h) k

  create_identity :
      (key : Key) (initial : Tinybar) (alias : Option Address) (memo : Bytes) (s : ChainState Db)
      (r : Record) (at : Timestamp) (p : ChainState Db × Record)
      → apply_create key initial alias memo s r at ≡ ok p
      → KeepsIdentity r p.1
  unfolding apply_create
  create_identity key initial alias memo s r at p h =
      let (_, h1) = >>-eq-ok (alias_taken s alias) Status.alias_already_assigned _ h in
      let (_, h2) =
        >>-eq-ok (ltb (balance_of s r.id.payer) initial) Status.insufficient_payer_balance _ h1 in
      kept r _ p h2 (record { same_id = refl; same_status = refl })

  transfer_identity :
      (amounts : List (AccountRef × ℤ)) (s : ChainState Db) (r : Record) (at : Timestamp)
      (p : ChainState Db × Record)
      → apply_transfer amounts s r at ≡ ok p
      → KeepsIdentity r p.1
  unfolding apply_transfer
  transfer_identity amounts s r at p h =
      let (parts, _, h1) = >>=-eq-ok (check_transfer s amounts) _ h in
      kept r (settle_transfer s r at parts) p h1 (record { same_id = refl; same_status = refl })

  delete_identity :
      (account to : EntityId) (s : ChainState Db) (r : Record) (p : ChainState Db × Record)
      → apply_delete account to s r ≡ ok p
      → KeepsIdentity r p.1
  unfolding apply_delete
  delete_identity account to s r p h =
      let (_, h1) = >>-eq-ok (account == to) Status.invalid_transfer_account_id _ h in
      let (_, h2) =
        >>-eq-ok (if is_some (BTreeMap.get account s.accounts) then false else true)
          Status.invalid_account_id _ h1 in
      let (_, h3) =
        >>-eq-ok (if is_live s account then false else true) Status.account_deleted _ h2 in
      let (_, h4) =
        >>-eq-ok (if is_live s to then false else true) Status.invalid_transfer_account_id _ h3 in
      kept r _ p h4 (record { same_id = refl; same_status = refl })

module _ {Db : Type 0} (ext : Externals Db) where
  submit_identity :
      (topic : EntityId) (message : Bytes) (s : ChainState Db) (r : Record) (at : Timestamp)
      (p : ChainState Db × Record)
      → apply_submit ext topic message s r at ≡ ok p
      → KeepsIdentity r p.1
  unfolding apply_submit
  submit_identity topic [] s r at p h = cc
  submit_identity topic (b ∷ bs) s r at p h = record {
    same_id = ground arith;
    same_status = ground arith;
  }

  ethereum_identity :
      (rlp : Bytes) (s : ChainState Db) (r : Record) (at : Timestamp)
      → KeepsIdentity r (apply_ethereum ext rlp s r at).1
  unfolding apply_ethereum
  ethereum_identity rlp s r at = record { same_id = ground arith; same_status = ground arith }

  pub apply_body-KeepsIdentity :
      (body : Body) (s : ChainState Db) (r : Record) (at : Timestamp)
      → KeepsIdentity r (apply_body ext body s r at).1
  unfolding apply_body
  apply_body-KeepsIdentity (Body.create_account key initial alias memo) s r at =
      settle-KeepsIdentity s r _ λ p h. create_identity key initial alias memo s r at p h
  apply_body-KeepsIdentity (Body.transfer amounts) s r at =
      settle-KeepsIdentity s r _ λ p h. transfer_identity amounts s r at p h
  apply_body-KeepsIdentity (Body.delete account to) s r at =
      settle-KeepsIdentity s r _ λ p h. delete_identity account to s r p h
  apply_body-KeepsIdentity (Body.create_topic memo admin submit period renew) s r at =
      unfold apply_create_topic in record { same_id = refl; same_status = refl }
  apply_body-KeepsIdentity (Body.submit_message topic message) s r at =
      settle-KeepsIdentity s r _ λ p h. submit_identity topic message s r at p h
  apply_body-KeepsIdentity (Body.ethereum rlp) s r at = ethereum_identity rlp s r at

  -- The record that `apply_hapi` files, and the state that it files it in.
  apply_hapi_files :
      (tx : Transaction) (now : Timestamp) (s : ChainState Db)
      → (s3 : ChainState Db) × ((apply_hapi ext tx now s).1
          ≡ file_record (apply_hapi ext tx now s).0 s3)
        × ((apply_hapi ext tx now s).0.id ≡ tx.id)
  unfolding apply_hapi blank_record
  apply_hapi_files tx now s =
      let (at, s1) = consensus_for tx.body now s in
      let r0 = blank_record tx at in
      let (s2, legs) = move_tinybar tx.id.payer fee_collector hapi_fee s1 r0.transfers in
      let r2 = record r0 { transfers = legs } in
      (
        (apply_body ext tx.body s2 r2 at).0,
        refl,
        (apply_body-KeepsIdentity tx.body s2 r2 at).same_id,
      )

  -- Whatever the body does, `apply_hapi` leaves a record with the transaction's own id, that record
  -- is what a lookup of the id then finds, and the id counts as used.
  pub apply_hapi_filed :
      (tx : Transaction) (now : Timestamp) (s : ChainState Db)
      → ((apply_hapi ext tx now s).0.id ≡ tx.id)
        × (hapi_record (apply_hapi ext tx now s).1 tx.id ≡ some (apply_hapi ext tx now s).0)
        × (has_transaction_id (apply_hapi ext tx now s).1 tx.id ≡ true)
  apply_hapi_filed tx now s =
      let (s3, state, id) = apply_hapi_files tx now s in
      let (found, used) = file_record-has (apply_hapi ext tx now s).0 s3 in
      (
        id,
        ap (hapi_record (apply_hapi ext tx now s).1) (sym id)
            ∙ (ap (λ (t : ChainState Db). hapi_record t (apply_hapi ext tx now s).0.id) state
                ∙ found),
        ap (has_transaction_id (apply_hapi ext tx now s).1) (sym id)
            ∙ (ap (λ (t : ChainState Db). has_transaction_id t (apply_hapi ext tx now s).0.id) state
                ∙ used),
      )
