-- ===== src/Chain/Supply/Opening.antt =====
-- A new account under a freshly allocated id.
use hanvil.Prelude.{ℕ, ◌+◌, ◌≤◌, ◌<◌, ◌≡◌, refl, none, some, arith, ◌==◌, is_some, true, false}
use hanvil.Word.{add_u64, u64_mod}
use hanvil.Maps.BTreeMap
use hanvil.Maps.Totals.{total-insert_new}
use hanvil.Accounts.{Account}
use hanvil.Chain.{ChainState, insert_account, allocate_id, first_user_id}
use hanvil.Chain.Supply.{supply}

module _ {Db : Type 0} where
  -- The state behind `allocate_id` and `insert_account` of an account under the new id.
  abbrev pub opened : Account → ChainState Db → ChainState Db
  opened a s = insert_account a (allocate_id s).1

  pub opened_accounts :
      (a : Account) (s : ChainState Db) → (opened a s).accounts ≡ BTreeMap.insert a.id a s.accounts
  unfolding insert_account allocate_id
  opened_accounts a s = refl

  pub opened_next_id :
      (a : Account) (s : ChainState Db)
      → a.id ≡ s.next_id
      → first_user_id ≤ s.next_id
      → s.next_id + 1 < u64_mod
      → (opened a s).next_id ≡ s.next_id + 1
  unfolding insert_account allocate_id add_u64
  opened_next_id a s e u h = ground arith

  module _ (a : Account) (s : ChainState Db) (e : a.id ≡ s.next_id)
      (user : first_user_id ≤ s.next_id) (room : s.next_id + 1 < u64_mod)
      (fresh : (i : ℕ) → s.next_id ≤ i → BTreeMap.get i s.accounts ≡ none) where
    pub opened-supply : supply (opened a s) ≡ supply s + a.balance
    opened-supply =
        rw (opened_accounts a s)
          (total-insert_new (λ b. b.balance) a.id a s.accounts (fresh a.id (omega (arith, e))))

    pub opened-fresh :
        (i : ℕ) → (opened a s).next_id ≤ i → BTreeMap.get i (opened a s).accounts ≡ none
    opened-fresh i h = rw (opened_accounts a s) (
        ground (
          arith,
          BTreeMap.get-insert a.id a s.accounts i,
          opened_next_id a s e user room,
          fresh i,
          e,
        ))

  -- An account that is there stays there.
  pub opened-is_some :
      (a : Account) (s : ChainState Db) (j : ℕ)
      → is_some (BTreeMap.get j s.accounts) ≡ true
      → is_some (BTreeMap.get j (opened a s).accounts) ≡ true
  opened-is_some a s j h =
      rw (opened_accounts a s) (ground (arith, BTreeMap.get-insert a.id a s.accounts j))

  pub get-opened_self :
      (a : Account) (s : ChainState Db) → BTreeMap.get a.id (opened a s).accounts ≡ some a
  get-opened_self a s = rw (opened_accounts a s) (BTreeMap.get-insert_self a.id a s.accounts)

  pub get-opened_ne :
      (a : Account) (s : ChainState Db) (j : ℕ)
      → (a.id == j) ≡ false
      → BTreeMap.get j (opened a s).accounts ≡ BTreeMap.get j s.accounts
  get-opened_ne a s j h =
      rw (opened_accounts a s) (ground (arith, BTreeMap.get-insert a.id a s.accounts j))
