-- ===== src/Chain/Genesis/Supply.antt =====
-- The accounts that genesis opens, and what they hold together.
use hanvil.Prelude.{
  ℕ, ◌+◌, ◌-◌, ◌*◌, ◌≤◌, ◌<◌, ◌≡◌, refl, ◌∙◌, ap, sym, subst, true, none, some, List, [], ◌∷◌, ◌++◌,
  arith, length, is_some, ltb, if◌then◌else◌, Bytes,
}
use hanvil.Prelude.Result.{ok, >>=-eq-ok, map_err-eq-ok, ok_eq, map_err}
use hanvil.Word.{u64_mod, u64_max, add_u64, saturating_mul, saturating_sub}
use hanvil.Maps.BTreeMap
use hanvil.Maps.BTreeMap.{BTreeMap}
use hanvil.Maps.Totals.{total-insert_new}
use hanvil.Units.{Tinybar}
use hanvil.Accounts.{EntityId, Account, Key}
use hanvil.Evm.{Externals}
use hanvil.Keys.{KeyCurves, per_group, predefined_accounts, treasury_key}
use hanvil.Keys.Consecutive.{AreConsecutive, predefined_accounts-AreConsecutive}
use hanvil.Chain.{
  ChainState, Error, first_user_id, fee_collector, treasury, node_id, insert_account,
}
use hanvil.Chain.Supply.{supply, IsSound}
use hanvil.Chain.Seal.Links.{IsLinked}
use hanvil.Chain.Genesis.{
  Genesis, total_supply, insert_all, etch_all, populate, empty_chain, genesis, system_account,
  genesis_block, unemulated_system_contracts,
}

module _ {Db : Type 0} where
  insert_next_id :
      (a : Account) (s : ChainState Db)
      → a.id ≡ s.next_id
      → first_user_id ≤ s.next_id
      → s.next_id + 1 < u64_mod
      → (insert_account a s).next_id ≡ s.next_id + 1
  unfolding insert_account add_u64
  insert_next_id a s e user room = ground arith

  -- What is kept while genesis opens the users' accounts.
  record IsOpening (held_so_far : ℕ) (s : ChainState Db) : Type 0 where
    total : supply s ≡ held_so_far
    fresh : (i : ℕ) → s.next_id ≤ i → BTreeMap.get i s.accounts ≡ none
    user_ids : first_user_id ≤ s.next_id
    collector : is_some (BTreeMap.get fee_collector s.accounts) ≡ true

  insert-IsOpening :
      (a : Account) (s : ChainState Db) (n : ℕ)
      → a.id ≡ s.next_id
      → s.next_id + 1 < u64_mod
      → IsOpening n s
      → IsOpening (n + a.balance) (insert_account a s)
  unfolding insert_account
  insert-IsOpening a s n e room v = record {
    total = omega (
      arith,
      total-insert_new (λ b. b.balance) a.id a s.accounts (v.fresh a.id (omega (arith, e))),
      v.total,
    );
    fresh = λ i h. ground (
      arith,
      BTreeMap.get-insert a.id a s.accounts i,
      insert_next_id a s e v.user_ids room,
      v.fresh i,
      e,
    );
    user_ids = omega (arith, insert_next_id a s e v.user_ids room, v.user_ids);
    collector = ground (arith, BTreeMap.get-insert a.id a s.accounts fee_collector, v.collector);
  }

  insert_all-IsOpening :
      (users : List Account) (s : ChainState Db) (n : ℕ) (balance : Tinybar)
      → AreConsecutive s.next_id balance users
      → s.next_id + length users < u64_mod
      → IsOpening n s
      → IsOpening (n + balance * length users) (insert_all users s)
  unfolding insert_all
  insert_all-IsOpening [] s n balance run room v = record {
    total = omega (arith, v.total);
    fresh = v.fresh;
    user_ids = v.user_ids;
    collector = v.collector;
  }
  insert_all-IsOpening (a ∷ rest) s n balance run room v =
      let next = insert_next_id a s run.0 v.user_ids (omega arith) in
      let opened =
        insert_all-IsOpening rest (insert_account a s) (n + a.balance) balance
          (subst (λ i. AreConsecutive i balance rest) (sym next) run.2) (omega (arith, next))
          (insert-IsOpening a s n run.0 (omega arith) v) in
      record {
        total = omega (arith, opened.total, run.1);
        fresh = opened.fresh;
        user_ids = opened.user_ids;
        collector = opened.collector;
      }

module _ {Db : Type 0} (ext : Externals Db) where
  etch_all_books :
      (stubs : List (EntityId × Bytes)) (s : ChainState Db)
      → ((etch_all ext stubs s).accounts ≡ s.accounts)
        × ((etch_all ext stubs s).next_id ≡ s.next_id)
        × ((etch_all ext stubs s).blocks ≡ s.blocks)
  unfolding etch_all
  etch_all_books [] s = (refl, refl, refl)
  etch_all_books ((i, text) ∷ rest) s = etch_all_books rest _

  -- The three system accounts, which hold what the users do not.
  system_accounts : Genesis → Key → ℕ → Db → ChainState Db
  unfolding insert_account
  system_accounts g minter users db = insert_account (system_account fee_collector none 0 g.now) (
      insert_account (system_account node_id none 0 g.now) (
        insert_account
          (system_account treasury (some minter)
            (saturating_sub total_supply (saturating_mul g.balance users)) g.now)
          (empty_chain g db)))

  system_accounts-IsOpening :
      (g : Genesis) (minter : Key) (users : ℕ) (db : Db)
      → IsOpening
          (total_supply - saturating_mul g.balance users)
          (system_accounts g minter users db)
  unfolding system_accounts BTreeMap.insert BTreeMap.get
  system_accounts-IsOpening g minter users db = record {
    total = omega arith;
    fresh = λ i h. ground arith;
    user_ids = omega arith;
    collector = refl;
  }

  -- What the users are given fits the supply, and the treasury has the rest.
  share :
      (balance n : ℕ)
      → balance * n ≤ total_supply
      → total_supply - saturating_mul balance n + balance * n ≡ total_supply
  unfolding saturating_mul total_supply
  share balance n h = omega (arith, small (balance * n) h)
    where
      small : (p : ℕ) → p ≤ total_supply → (if ltb u64_max p then u64_max else p) ≡ p
      small p h = ground arith

  system_accounts_next :
      (g : Genesis) (minter : Key) (users : ℕ) (db : Db)
      → (system_accounts g minter users db).next_id ≡ first_user_id
  unfolding system_accounts
  system_accounts_next g minter users db = refl

  insert_all_blocks :
      (users : List Account) (s : ChainState Db) → (insert_all users s).blocks ≡ s.blocks
  unfolding insert_all insert_account
  insert_all_blocks [] s = refl
  insert_all_blocks (a ∷ rest) s = insert_all_blocks rest (insert_account a s)

  users_opened : Genesis → Key → List Account → Db → ChainState Db
  users_opened g minter users db = insert_all users (system_accounts g minter (length users) db)

  users_opened-IsOpening :
      (g : Genesis) (minter : Key) (users : List Account) (db : Db)
      → AreConsecutive first_user_id g.balance users
      → length users ≤ 30
      → g.balance * length users ≤ total_supply
      → IsOpening total_supply (users_opened g minter users db)
  unfolding users_opened
  users_opened-IsOpening g minter users db run few fits =
      subst (λ n. IsOpening n (insert_all users (system_accounts g minter (length users) db)))
        (share g.balance (length users) fits)
        (insert_all-IsOpening users (system_accounts g minter (length users) db) _ g.balance
          (subst (λ i. AreConsecutive i g.balance users)
            (sym (system_accounts_next g minter (length users) db)) run)
          (omega (arith, system_accounts_next g minter (length users) db))
          (system_accounts-IsOpening g minter (length users) db))

  -- The stubs and the block leave the books as the users' accounts left them.
  populate_books :
      (g : Genesis) (minter : Key) (users : List Account) (db : Db)
      → (let s = populate ext g minter users (empty_chain g db) in
          let t = users_opened g minter users db in
          (s.accounts ≡ t.accounts)
          × (s.next_id ≡ (if ltb t.next_id first_user_id then first_user_id else t.next_id))
          × (s.blocks ≡ genesis_block ext g ∷ []))
  unfolding populate users_opened system_accounts
  populate_books g minter users db =
      let t = users_opened g minter users db in
      let (accounts, next, blocks) =
        etch_all_books unemulated_system_contracts (record t {
          next_id = if ltb t.next_id first_user_id then first_user_id else t.next_id;
        }) in
      (
        accounts,
        next,
        ap (λ bs. bs ++ genesis_block ext g ∷ [])
            (blocks ∙ insert_all_blocks users (system_accounts g minter (length users) db)),
      )

  populate-IsSound :
      (g : Genesis) (minter : Key) (users : List Account) (db : Db)
      → AreConsecutive first_user_id g.balance users
      → length users ≤ 30
      → g.balance * length users ≤ total_supply
      → (let s = populate ext g minter users (empty_chain g db) in
          IsSound s × (supply s ≡ total_supply) × IsLinked s)
  unfolding total_supply
  populate-IsSound g minter users db run few fits =
      let v = users_opened-IsOpening g minter users db run few fits in
      let (accounts, next, blocks) = populate_books g minter users db in
      (
        record {
          fresh = λ i h. rw accounts (v.fresh i (ground (arith, next)));
          user_ids = ground (arith, next);
          collector = rw accounts v.collector;
          bounded = rw accounts (omega (arith, v.total));
        },
        rw accounts v.total,
        rw blocks (refl, tt),
      )

  -- Where the node starts at all, and the predefined accounts are given no more than the 50
  -- billion hbar together, the first state has sound books, its accounts hold exactly the total
  -- supply, and its blocks are linked.
  pub genesis-IsSound :
      (curves : KeyCurves) (g : Genesis) (db : Db) (s : ChainState Db)
      → genesis ext curves g db ≡ ok s
      → g.balance * (3 * per_group g.accounts_per_type) ≤ total_supply
      → IsSound s × (supply s ≡ total_supply) × IsLinked s
  unfolding genesis
  genesis-IsSound curves g db s h fits =
      let (users, e, h1) =
        >>=-eq-ok
          (map_err Error.key
            (predefined_accounts curves first_user_id g.accounts_per_type g.balance g.now))
          _ h in
      let (minter, _, h2) = >>=-eq-ok (map_err Error.key (treasury_key curves)) _ h1 in
      let (run, of, count) =
        predefined_accounts-AreConsecutive curves g.accounts_per_type g.balance g.now first_user_id
          users (map_err-eq-ok Error.key _ e) in
      subst (λ t. IsSound t × (supply t ≡ total_supply) × IsLinked t) (ok_eq h2)
        (populate-IsSound g minter users db run (ground (arith, count)) (rw count fits))
