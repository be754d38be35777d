-- ===== src/Chain/Cheats.antt =====
-- The `anvil_*` cheats of src/state/mod.rs that write accounts and code.
use hanvil.Prelude.{ℕ, not, ◌&&◌, none, some, ◌∷◌, Bytes, if◌then◌else◌, ◌==◌, any, keep}
use hanvil.Prelude.Eq.{nat_eq}
use hanvil.Maps.BTreeMap
use hanvil.Maps.HashMap
use hanvil.Units.{Tinybar, Address, to_evm}
use hanvil.Time.{Timestamp}
use hanvil.Evm.{Externals}
use hanvil.Chain.{ChainState, insert_account, allocate_id, block_number}
use hanvil.Chain.Transfers.{hollow}
use hanvil.Chain.Execution.{db_account}

module _ {Db : Type 0} (ext : Externals Db) where
  unfoldable pub set_balance : Address → Tinybar → Timestamp → ChainState Db → ChainState Db
  unfolding db_account allocate_id insert_account
  set_balance address balance now s = elim (HashMap.get address s.by_evm) [
    | some i ↦ elim (BTreeMap.get i s.accounts) [
      | none ↦ s
      | some a ↦ record s {
        accounts = BTreeMap.insert i (record a { balance = balance }) s.accounts;
      }
    ]
    | none ↦
        if HashMap.contains_key address s.contract_by_evm
        then record s {
          db =
              ext.put_account address
                (record (db_account ext address s.db) { balance = to_evm balance }) s.db;
        }
        else (let (i, s1) = allocate_id s in insert_account (hollow i address balance now) s1)
  ]

  -- A contract entity is registered where the address had none. Code that revm's `Bytecode::new_raw`
  -- refuses, a malformed 0xef01 prefix, makes the source panic; that is not modelled.
  unfoldable pub set_code : Address → Bytes → ChainState Db → ChainState Db
  unfolding db_account allocate_id
  set_code address code s =
      let s1 = record s {
        db =
            ext.put_account address (record (db_account ext address s.db) { code = some code })
              s.db;
      } in
      if not (HashMap.contains_key address s.contract_by_evm)
        && not (HashMap.contains_key address s.by_evm)
      then (let (i, s2) = allocate_id s1 in
          record s2 {
            contracts =
                BTreeMap.insert i (record { address = address; created_block = block_number s })
                  s2.contracts;
            contract_by_evm = HashMap.insert address i s2.contract_by_evm;
          })
      else s1

  unfoldable pub set_nonce : Address → ℕ → ChainState Db → ChainState Db
  unfolding db_account
  set_nonce address nonce s =
      let s1 : ChainState Db = elim (HashMap.get address s.by_evm) [
        | none ↦ s
        | some i ↦ elim (BTreeMap.get i s.accounts) [
          | none ↦ s
          | some a ↦ record s {
            accounts = BTreeMap.insert i (record a { nonce = nonce }) s.accounts;
          }
        ]
      ] in
      record s1 {
        db = ext.put_account address (record (db_account ext address s.db) { nonce = nonce }) s.db;
      }

  unfoldable pub set_storage : Address → ℕ → ℕ → ChainState Db → ChainState Db
  unfolding db_account
  set_storage address slot value s =
      let entry = db_account ext address s.db in
      record s {
        db =
            ext.put_account address
              (record entry { storage = HashMap.insert slot value entry.storage }) s.db;
      }

module _ {Db : Type 0} where
  unfoldable pub impersonate : Address → ChainState Db → ChainState Db
  impersonate address s =
      if any (λ a. a == address) s.impersonated
      then s
      else record s { impersonated = address ∷ s.impersonated }

  unfoldable pub stop_impersonating : Address → ChainState Db → ChainState Db
  stop_impersonating address s = record s {
    impersonated = keep (λ a. not (a == address)) s.impersonated;
  }
