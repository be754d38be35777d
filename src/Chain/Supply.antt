-- ===== src/Chain/Supply.antt =====
-- The tinybar that the accounts of a chain hold together, and what keeps a chain's books sound.
pub mod Opening
use hanvil.Prelude.{ℕ, ◌≤◌, ◌<◌, ◌≡◌, true, none, is_some}
use hanvil.Word.{i64_mod}
use hanvil.Maps.BTreeMap
use hanvil.Maps.BTreeMap.{BTreeMap, total}
use hanvil.Accounts.{Account}
use hanvil.Chain.{ChainState, first_user_id, fee_collector}

abbrev pub held : BTreeMap Account → ℕ
held = total λ a. a.balance

module _ {Db : Type 0} where
  abbrev pub supply : ChainState Db → ℕ
  supply s = held s.accounts

  -- Ids are handed out upwards and are not in use, the fee collector is there, and an i64 holds
  -- any amount that the accounts could move.
  pub record IsSound (s : ChainState Db) : Type 0 where
    pub fresh : (i : ℕ) → s.next_id ≤ i → BTreeMap.get i s.accounts ≡ none
    pub user_ids : first_user_id ≤ s.next_id
    pub collector : is_some (BTreeMap.get fee_collector s.accounts) ≡ true
    pub bounded : supply s < i64_mod

  -- The supply is the same, and the books are sound again.
  pub record Conserves (s s' : ChainState Db) : Type 0 where
    pub same : supply s' ≡ supply s
    pub sound : IsSound s'
