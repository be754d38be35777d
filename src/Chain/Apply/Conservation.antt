-- ===== src/Chain/Apply/Conservation.antt =====
-- A HAPI transaction other than `ethereumTransaction` neither makes nor loses tinybar.
use hanvil.Prelude.{◌≤◌, ◌≡◌, refl, ◌∙◌, ap, true, some, [], ◌∷◌, Bytes, arith, is_some}
use hanvil.Prelude.Result.{ok}
use hanvil.Maps.BTreeMap
use hanvil.Time.{Timestamp}
use hanvil.Accounts.{EntityId, Account}
use hanvil.Records.{Record, Transaction, Body}
use hanvil.Evm.{Externals}
use hanvil.Chain.{ChainState, hapi_fee, fee_collector}
use hanvil.Chain.Clock.{next_consensus}
use hanvil.Chain.Supply.{IsSound, Conserves}
use hanvil.Chain.Transfers.{move_tinybar}
use hanvil.Chain.Transfers.Moves.{move_tinybar_ids, move_tinybar-is_some}
use hanvil.Chain.Apply.{
  apply_submit, apply_body, consensus_for, blank_record, file_record, apply_hapi,
}
use hanvil.Chain.Apply.Books.{
  keep_books, then-Conserves, move_tinybar-Conserves, settle-Conserves, skip_id,
}
use hanvil.Chain.Apply.Bodies.{
  apply_create-Conserves, apply_delete-Conserves, topic_accounts, apply_transfer-Conserves, Fits,
}

module _ {Db : Type 0} (ext : Externals Db) where
  submit_accounts :
      (topic : EntityId) (message : Bytes) (s : ChainState Db) (r : Record) (at : Timestamp)
      (p : ChainState Db × Record)
      → apply_submit ext topic message s r at ≡ ok p
      → (p.0.accounts ≡ s.accounts) × (p.0.next_id ≡ s.next_id)
  unfolding apply_submit
  submit_accounts topic [] s r at p h = (ground arith, ground arith)
  submit_accounts topic (b ∷ bs) s r at p h = (ground arith, ground arith)

  apply_body-Conserves :
      (body : Body) (s : ChainState Db) (r : Record) (at : Timestamp)
      → IsSound s
      → is_some (BTreeMap.get r.id.payer s.accounts) ≡ true
      → Fits body s
      → Conserves s (apply_body ext body s r at).0
  unfolding apply_body
  apply_body-Conserves (Body.create_account key initial alias memo) s r at v there fits =
      settle-Conserves s r _ v
        λ p h. apply_create-Conserves key initial alias memo s r at p v there fits h
  apply_body-Conserves (Body.transfer amounts) s r at v there fits =
      settle-Conserves s r _ v λ p h. apply_transfer-Conserves amounts s r at p v fits.0 fits.1 h
  apply_body-Conserves (Body.delete account to) s r at v there fits =
      settle-Conserves s r _ v λ p h. apply_delete-Conserves account to s r p v h
  apply_body-Conserves (Body.create_topic memo admin submit period renew) s r at v there fits =
      let (e, f) = topic_accounts memo admin submit period renew s r at fits in skip_id s _ e f v
  apply_body-Conserves (Body.submit_message topic message) s r at v there fits =
      settle-Conserves s r _ v
        λ p h. let (e, f) = submit_accounts topic message s r at p h in keep_books s p.0 e f v
  apply_body-Conserves (Body.ethereum rlp) s r at v there fits = absurd fits

module _ {Db : Type 0} where
  consensus_accounts :
      (at : Timestamp) (s : ChainState Db)
      → ((next_consensus at s).1.accounts ≡ s.accounts)
        × ((next_consensus at s).1.next_id ≡ s.next_id)
  unfolding next_consensus
  consensus_accounts at s = (refl, refl)

  consensus_for_books :
      (body : Body) (now : Timestamp) (s : ChainState Db)
      → ((consensus_for body now s).1.accounts ≡ s.accounts)
        × ((consensus_for body now s).1.next_id ≡ s.next_id)
  unfolding consensus_for
  consensus_for_books (Body.ethereum rlp) now s = (refl, refl)
  consensus_for_books _ now s = consensus_accounts now s

  Fits-same :
      (body : Body) (s s' : ChainState Db) → s'.next_id ≡ s.next_id → Fits body s → Fits body s'
  Fits-same (Body.create_account key initial alias memo) s s' e h = omega (arith, e, h)
  Fits-same (Body.transfer amounts) s s' e h = (h.0, omega (arith, e, h.1))
  Fits-same (Body.delete account to) s s' e h = tt
  Fits-same (Body.create_topic memo admin submit period renew) s s' e h = omega (arith, e, h)
  Fits-same (Body.submit_message topic message) s s' e h = tt
  Fits-same (Body.ethereum rlp) s s' e h = h

  file_record-Conserves :
      (r : Record) (s : ChainState Db) → IsSound s → Conserves s (file_record r s)
  unfolding file_record
  file_record-Conserves r s v = keep_books s _ refl refl v

-- A HAPI transaction other than `ethereumTransaction`, applied to a sound chain on which the payer
-- exists and can pay the fee, with amounts that are i64s and ids left for what it creates, keeps
-- the sum of all account balances and leaves a sound chain. This holds whether the body succeeds
-- or not.
pub apply_hapi-Conserves :
    {Db : Type 0} (ext : Externals Db) (tx : Transaction) (now : Timestamp) (s : ChainState Db)
    (payer : Account)
    → IsSound s
    → BTreeMap.get tx.id.payer s.accounts ≡ some payer
    → hapi_fee ≤ payer.balance
    → Fits tx.body s
    → Conserves s (apply_hapi ext tx now s).1
unfolding apply_hapi blank_record
apply_hapi-Conserves {Db} ext tx now s payer v found pays fits =
    then-Conserves c1 (then-Conserves c2 (then-Conserves c3 (file_record-Conserves _ _ c3.sound)))
  where
    r0 : Record
    r0 = blank_record tx (consensus_for tx.body now s).0

    s1 : ChainState Db
    s1 = (consensus_for tx.body now s).1

    c1 : Conserves s s1
    c1 =
        keep_books s s1 (consensus_for_books tx.body now s).0 (consensus_for_books tx.body now s).1
          v

    s2 : ChainState Db
    s2 = (move_tinybar tx.id.payer fee_collector hapi_fee s1 []).0

    c2 : Conserves s1 s2
    c2 =
        move_tinybar-Conserves tx.id.payer fee_collector hapi_fee s1 [] payer c1.sound
          (rw (consensus_for_books tx.body now s).0 found) pays c1.sound.collector

    there : is_some (BTreeMap.get tx.id.payer s2.accounts) ≡ true
    there =
        move_tinybar-is_some tx.id.payer fee_collector hapi_fee s1 [] tx.id.payer
        ∙ rw (consensus_for_books tx.body now s).0 (ap is_some found)

    ids : s2.next_id ≡ s.next_id
    ids =
        move_tinybar_ids tx.id.payer fee_collector hapi_fee s1 []
        ∙ (consensus_for_books tx.body now s).1

    r2 : Record
    r2 = record r0 { transfers = (move_tinybar tx.id.payer fee_collector hapi_fee s1 []).1 }

    c3 : Conserves s2 (apply_body ext tx.body s2 r2 (consensus_for tx.body now s).0).0
    c3 =
        apply_body-Conserves ext tx.body s2 r2 (consensus_for tx.body now s).0 c2.sound there
          (Fits-same tx.body s s2 ids fits)
