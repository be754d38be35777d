-- ===== src/Chain/Journal/Bodies.antt =====
-- The bodies of HAPI transactions leave the journal alone, all but `ethereumTransaction`, which
-- leaves the records alone.
use hanvil.Prelude.{
  ℤ, Bytes, ◌≡◌, refl, ◌∙◌, sym, ap, arith, true, false, Option, List, [], ◌∷◌, ltb, ◌==◌, is_some,
  if◌then◌else◌,
}
use hanvil.Prelude.Result.{Result, ok, err, >>=-eq-ok, >>-eq-ok, ok_eq}
use hanvil.Units.{Tinybar, Address}
use hanvil.Time.{Timestamp}
use hanvil.Maps.BTreeMap
use hanvil.Accounts.{EntityId, Key}
use hanvil.Records.{Record, Body, AccountRef}
use hanvil.Records.Responses.{Status}
use hanvil.Evm.{Externals}
use hanvil.Chain.{ChainState, balance_of, is_live, insert_account, allocate_id}
use hanvil.Chain.Transfers.{
  move_tinybar, apply_legs, check_transfer, apply_transfer, settle_transfer,
}
use hanvil.Chain.Apply.{
  settle, alias_taken, new_account, apply_create, apply_delete, apply_create_topic, apply_submit,
  apply_body, consensus_for,
}
use hanvil.Chain.Journal.Runs.{send_raw-KeepsJournal}
use hanvil.Chain.Apply.Filing.{apply_body-KeepsIdentity}
use hanvil.Chain.Execution.{send_raw}
use hanvil.Chain.Clock.{next_consensus}
use hanvil.Chain.Apply.{apply_ethereum, apply_hapi, file_record, blank_record, status_of}
use hanvil.Chain.Transfers.{aggregate}
use hanvil.Chain.{fee_collector, hapi_fee}
use hanvil.Records.{Transaction}
use hanvil.Chain.Journal.{
  journal, move_journal, opened_journal, mark_journal, legs_journal, hollow_journal,
  consensus_journal, KeepsJournal, same-KeepsJournal, then-KeepsJournal,
}

module _ {Db : Type 0} where
  journal-settle :
      (s : ChainState Db) (r : Record) (m : Result Status (ChainState Db × Record))
      → ((p : ChainState Db × Record) → m ≡ ok p → journal p.0 ≡ journal s)
      → journal (settle s r m).0 ≡ journal s
  journal-settle s r (ok p) h = h p refl
  journal-settle s r (err e) h = refl

  create_journal :
      (key : Key) (initial : Tinybar) (alias : Option Address) (memo : Bytes) (s : ChainState Db)
      (r : Record) (at : Timestamp) (p : ChainState Db × Record)
      → apply_create key initial alias memo s r at ≡ ok p
      → journal p.0 ≡ journal s
  unfolding apply_create
  create_journal key initial alias memo s r at p h =
      let (_, h1) = >>-eq-ok (alias_taken s alias) Status.alias_already_assigned _ h in
      let (_, h2) =
        >>-eq-ok (ltb (balance_of s r.id.payer) initial) Status.insufficient_payer_balance _ h1 in
      let a = new_account s.next_id key alias memo at in
      sym (ap (λ q. journal q.0) (ok_eq h2))
      ∙ (move_journal r.id.payer s.next_id initial (insert_account a (allocate_id s).1) r.transfers
          ∙ opened_journal a s)

  transfer_journal :
      (amounts : List (AccountRef × ℤ)) (s : ChainState Db) (r : Record) (at : Timestamp)
      (p : ChainState Db × Record)
      → apply_transfer amounts s r at ≡ ok p
      → journal p.0 ≡ journal s
  unfolding apply_transfer
  transfer_journal amounts s r at p h =
      let (parts, _, h1) = >>=-eq-ok (check_transfer s amounts) _ h in
      sym (ap (λ q. journal q.0) (ok_eq {a = settle_transfer s r at parts} h1))
      ∙ (hollow_journal at parts.1 (apply_legs parts.0 s) ∙ legs_journal parts.0 s)

  delete_journal :
      (account to : EntityId) (s : ChainState Db) (r : Record) (p : ChainState Db × Record)
      → apply_delete account to s r ≡ ok p
      → journal p.0 ≡ journal s
  unfolding apply_delete
  delete_journal account to s r p h =
      let (_, h1) = >>-eq-ok (account == to) Status.invalid_transfer_account_id _ h in
      let (_, h2) =
        >>-eq-ok (if is_some (BTreeMap.get account s.accounts) then false else true)
          Status.invalid_account_id _ h1 in
      let (_, h3) =
        >>-eq-ok (if is_live s account then false else true) Status.account_deleted _ h2 in
      let (_, h4) =
        >>-eq-ok (if is_live s to then false else true) Status.invalid_transfer_account_id _ h3 in
      sym (ap (λ q. journal q.0) (ok_eq h4))
      ∙ (mark_journal account (move_tinybar account to (balance_of s account) s r.transfers).0
          ∙ move_journal account to (balance_of s account) s r.transfers)

  pub journal-consensus_for :
      (body : Body) (now : Timestamp) (s : ChainState Db)
      → journal (consensus_for body now s).1 ≡ journal s
  unfolding consensus_for
  journal-consensus_for (Body.ethereum rlp) now s = refl
  journal-consensus_for _ now s = consensus_journal now s

-- Every body but `ethereumTransaction`.
abbrev pub IsLocal : Body → Type 0
IsLocal (Body.ethereum rlp) = ⊥
IsLocal _ = Unit {0}

module _ {Db : Type 0} (ext : Externals Db) where
  submit_journal :
      (topic : EntityId) (message : Bytes) (s : ChainState Db) (r : Record) (at : Timestamp)
      (p : ChainState Db × Record)
      → apply_submit ext topic message s r at ≡ ok p
      → journal p.0 ≡ journal s
  unfolding apply_submit
  submit_journal topic [] s r at p h = cc
  submit_journal topic (b ∷ bs) s r at p h = ground arith

  pub body_journal :
      (body : Body) (s : ChainState Db) (r : Record) (at : Timestamp)
      → IsLocal body
      → journal (apply_body ext body s r at).0 ≡ journal s
  unfolding apply_body
  body_journal (Body.create_account key initial alias memo) s r at l =
      journal-settle s r _ λ p h. create_journal key initial alias memo s r at p h
  body_journal (Body.transfer amounts) s r at l =
      journal-settle s r _ λ p h. transfer_journal amounts s r at p h
  body_journal (Body.delete account to) s r at l =
      journal-settle s r _ λ p h. delete_journal account to s r p h
  body_journal (Body.create_topic memo admin submit period renew) s r at l =
      unfold apply_create_topic in refl
  body_journal (Body.submit_message topic message) s r at l =
      journal-settle s r _ λ p h. submit_journal topic message s r at p h
  body_journal (Body.ethereum rlp) s r at l = absurd l

  ethereum_journal :
      (rlp : Bytes) (s : ChainState Db) (r : Record) (at : Timestamp)
      → journal (apply_ethereum ext rlp s r at).0 ≡ journal (send_raw ext rlp at s).0
  unfolding apply_ethereum next_consensus
  ethereum_journal rlp s r at = ground arith

  ethereum-KeepsJournal :
      (rlp : Bytes) (s : ChainState Db) (r : Record) (at : Timestamp)
      → KeepsJournal s (apply_ethereum ext rlp s r at).0
  ethereum-KeepsJournal rlp s r at =
      then-KeepsJournal (send_raw-KeepsJournal ext rlp at s)
        (same-KeepsJournal _ _ (ethereum_journal rlp s r at))

  body-KeepsJournal :
      (body : Body) (s : ChainState Db) (r : Record) (at : Timestamp)
      → KeepsJournal s (apply_body ext body s r at).0
  body-KeepsJournal (Body.ethereum rlp) s r at =
      unfold apply_body in ethereum-KeepsJournal rlp s r at
  body-KeepsJournal body s r at = same-KeepsJournal s _ (body_journal body s r at tt)

  -- What `apply_hapi` files, and the state that it files it in.
  pub record Filing (tx : Transaction) (s s' : ChainState Db) : Type 0 where
    pub before : ChainState Db
    pub filing : Record
    pub same_id : filing.id ≡ tx.id
    pub result : s' ≡ file_record filing before
    pub keeps : KeepsJournal s before

  pub apply_hapi-Filing :
      (tx : Transaction) (now : Timestamp) (s : ChainState Db)
      → Filing tx s (apply_hapi ext tx now s).1
  unfolding apply_hapi blank_record
  apply_hapi-Filing tx now s =
      let (at, s1) = consensus_for tx.body now s in
      let r0 = blank_record tx at in
      let (s2, legs) = move_tinybar tx.id.payer fee_collector hapi_fee s1 r0.transfers in
      let r2 = record r0 { transfers = legs } in
      let (s3, r3, stopped) = apply_body ext tx.body s2 r2 at in
      record {
        before = s3;
        filing = record r3 {
          status = status_of stopped r3.status;
          transfers = aggregate r3.transfers;
        };
        same_id = (apply_body-KeepsIdentity ext tx.body s2 r2 at).same_id;
        result = refl;
        keeps =
            then-KeepsJournal
              (same-KeepsJournal s s2 (
                move_journal tx.id.payer fee_collector hapi_fee s1 r0.transfers
                ∙ journal-consensus_for tx.body now s))
              (body-KeepsJournal tx.body s2 r2 at);
      }
