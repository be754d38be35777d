-- ===== src/Chain/Apply/Bodies.antt =====
-- Each HAPI body but `ethereumTransaction` keeps the books where it succeeds.
use hanvil.Prelude.{
  ℕ, ◌+◌, ◌≤◌, ◌<◌, ◌≡◌, refl, ◌∙◌, ap, subst, ℤ, true, Option, List, Bytes, arith, is_some, length,
}
use hanvil.Prelude.Result.{Result, ok, >>=-eq-ok}
use hanvil.Word.{u64_mod, add_u64}
use hanvil.Maps.BTreeMap
use hanvil.Units.{Tinybar, Address}
use hanvil.Time.{Timestamp}
use hanvil.Accounts.{EntityId, Account, Key}
use hanvil.Records.{Record, Body, AccountRef}
use hanvil.Records.Responses.{Status}
use hanvil.Chain.{ChainState, allocate_id, balance_of, is_live}
use hanvil.Chain.Supply.{IsSound, Conserves}
use hanvil.Chain.Supply.Opening.{opened, get-opened_self, get-opened_ne}
use hanvil.Chain.Transfers.{move_tinybar, check_transfer, apply_transfer}
use hanvil.Chain.Transfers.Resolution.{Small}
use hanvil.Chain.Transfers.Conservation.{check_transfer-IsChecked, after-supply, after-IsSound}
use hanvil.Chain.Apply.{new_account, apply_create, mark_deleted, apply_delete, apply_create_topic}
use hanvil.Chain.Apply.Books.{
  then-Conserves, move_tinybar-Conserves, opened-Conserves, mark_deleted-Conserves, fresh_ne,
  payer_of, live_is_some,
}

ok_eq : {A : Type 0} (a b : A) → (let m : Result Status A = ok a in m ≡ ok b) → a ≡ b
ok_eq a b h = cc

module _ {Db : Type 0} where
  create_result :
      (key : Key) (initial : Tinybar) (alias : Option Address) (memo : Bytes) (s : ChainState Db)
      (r : Record) (at : Timestamp) (p : ChainState Db × Record)
      → apply_create key initial alias memo s r at ≡ ok p
      → (initial ≤ balance_of s r.id.payer)
        × (p.0
            ≡ (move_tinybar r.id.payer s.next_id initial
                (opened (new_account s.next_id key alias memo at) s)
                r.transfers).0)
  unfolding apply_create allocate_id
  create_result key initial alias memo s r at p h = (ground arith, ground arith)

  pub apply_create-Conserves :
      (key : Key) (initial : Tinybar) (alias : Option Address) (memo : Bytes) (s : ChainState Db)
      (r : Record) (at : Timestamp) (p : ChainState Db × Record)
      → IsSound s
      → is_some (BTreeMap.get r.id.payer s.accounts) ≡ true
      → s.next_id + 1 < u64_mod
      → apply_create key initial alias memo s r at ≡ ok p
      → Conserves s p.0
  apply_create-Conserves key initial alias memo s r at p v there room h =
      let (covered, result) = create_result key initial alias memo s r at p h in
      let (a, found, held) = payer_of s r.id.payer there in
      rw result (
        then-Conserves grown (
          move_tinybar-Conserves r.id.payer s.next_id initial (opened new s) r.transfers a
            grown.sound (get-opened_ne new s r.id.payer (fresh_ne s r.id.payer a v found) ∙ found)
            (omega (arith, covered, held)) (ap is_some (get-opened_self new s))))
    where
      new : Account
      new = new_account s.next_id key alias memo at

      grown : Conserves s (opened new s)
      grown = opened-Conserves new s v refl refl room

  delete_result :
      (account to : EntityId) (s : ChainState Db) (r : Record) (p : ChainState Db × Record)
      → apply_delete account to s r ≡ ok p
      → (is_some (BTreeMap.get account s.accounts) ≡ true)
        × (is_live s to ≡ true)
        × (p.0
            ≡ mark_deleted account (move_tinybar account to (balance_of s account) s r.transfers).0)
  unfolding apply_delete
  delete_result account to s r p h = (ground arith, ground arith, ground arith)

  pub apply_delete-Conserves :
      (account to : EntityId) (s : ChainState Db) (r : Record) (p : ChainState Db × Record)
      → IsSound s
      → apply_delete account to s r ≡ ok p
      → Conserves s p.0
  apply_delete-Conserves account to s r p v h =
      let (there, live, result) = delete_result account to s r p h in
      let (a, found, held) = payer_of s account there in
      let moved =
        move_tinybar-Conserves account to (balance_of s account) s r.transfers a v found
          (omega (arith, held)) (live_is_some s to live) in
      rw result (then-Conserves moved (mark_deleted-Conserves account _ moved.sound))

  -- `create_topic` takes an id and leaves the accounts.
  pub topic_accounts :
      (memo : Bytes) (admin submit : Option Key) (period : ℕ) (renew : Option EntityId)
      (s : ChainState Db) (r : Record) (at : Timestamp)
      → s.next_id + 1 < u64_mod
      → ((apply_create_topic memo admin submit period renew s r at).0.accounts ≡ s.accounts)
        × ((apply_create_topic memo admin submit period renew s r at).0.next_id ≡ s.next_id + 1)
  unfolding apply_create_topic allocate_id add_u64
  topic_accounts memo admin submit period renew s r at room = (refl, omega arith)

  pub apply_transfer-Conserves :
      (amounts : List (AccountRef × ℤ)) (s : ChainState Db) (r : Record) (at : Timestamp)
      (p : ChainState Db × Record)
      → IsSound s
      → Small amounts
      → s.next_id + length amounts < u64_mod
      → apply_transfer amounts s r at ≡ ok p
      → Conserves s p.0
  unfolding apply_transfer
  apply_transfer-Conserves amounts s r at p v small room h =
      let (parts, checked, result) = >>=-eq-ok (check_transfer s amounts) _ h in
      let facts = check_transfer-IsChecked s amounts parts checked in
      subst (λ q. Conserves s q.0) (ok_eq _ _ result)
        (record {
          same = after-supply s amounts parts at v small room facts;
          sound = after-IsSound s amounts parts at v small room facts;
        })

  -- What a body asks of the id counter and of its amounts.
  abbrev pub Fits : Body → ChainState Db → Type 0
  Fits (Body.create_account key initial alias memo) s = s.next_id + 1 < u64_mod
  Fits (Body.transfer amounts) s = Small amounts × (s.next_id + length amounts < u64_mod)
  Fits (Body.delete account to) s = Unit {0}
  Fits (Body.create_topic memo admin submit period renew) s = s.next_id + 1 < u64_mod
  Fits (Body.submit_message topic message) s = Unit {0}
  Fits (Body.ethereum rlp) s = ⊥
