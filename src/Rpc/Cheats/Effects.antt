-- ===== src/Rpc/Cheats/Effects.antt =====
-- The cheats keep a chain, and its snapshots, orderly.
use hanvil.Prelude.{
  ℕ, zero, suc, ◌≡◌, refl, ap, subst, Option, none, some, List, Bytes, codes, get_elem?,
  Option-cases, inl, inr,
}
use hanvil.Prelude.Result.{
  Result, ok, err, outcome, value, error, map_err, ok_eq, >>=-eq-ok, map_err-eq-ok,
}
use hanvil.Units.{from_weibar_exact}
use hanvil.Time.{Timestamp}
use hanvil.Evm.{Externals}
use hanvil.Chain.{ChainState, Chain}
use hanvil.Chain.Clock
use hanvil.Chain.Cheats
use hanvil.Chain.Seal.{mine_empty}
use hanvil.Chain.Journal.{
  KeepsJournal, untouched-KeepsJournal, same-KeepsJournal, then-KeepsJournal,
}
use hanvil.History.{kept_or}
use hanvil.History.Journal.{
  kept-IsOrderly, mine_empty-KeepsJournal, journal-set_balance, journal-set_code, journal-set_nonce,
  journal-impersonate, pinned_journal,
}
use hanvil.Rpc.{Value, Formats}
use hanvil.Rpc.Errors.{RpcError, of_error}
use hanvil.Rpc.Params.{parse_address, parse_bytes, parse_quantity, parse_u64}
use hanvil.Rpc.Cheats.{
  Cheat, evm_snapshot, evm_revert, evm_mine, anvil_mine, increase_time, set_next_block_timestamp,
  set_balance, set_code, set_nonce, set_storage_at, impersonate_account, stop_impersonating_account,
  node_info, rejections, automine, state_file, cheat_of, balance_cheat, code_cheat, nonce_cheat,
  storage_cheat, timestamp_cheat, impersonate_cheat, stop_cheat, changed, cheat, cheat_call,
}
use hanvil.Rpc.Cheats.Mining.{
  Mine, anvil_mine_params, evm_mine_params, mine_spaced, mine_blocks, pinned_first, mine,
}
use hanvil.Rpc.Cheats.Copies.{AreOrderly, snapshot-AreOrderly, revert-AreOrderly}

module _ (formats : Formats) {Db : Type 0} (ext : Externals Db) (now : Timestamp) where
  changed-AreOrderly :
      (answer : Value) (c : Chain Db) (m : Result RpcError (ChainState Db))
      → ((s : ChainState Db) → m ≡ ok s → KeepsJournal c.state s)
      → AreOrderly c
      → AreOrderly (changed formats ext now answer c m).0
  changed-AreOrderly answer c (err e) k v = v
  changed-AreOrderly answer c (ok s) k v = record {
    head = kept-IsOrderly c.state s (k s refl) v.head;
    copies = v.copies;
  }

  mine_spaced-KeepsJournal :
      (n interval : ℕ) (s : ChainState Db) → KeepsJournal s (mine_spaced ext now n interval s)
  unfolding mine_spaced Clock.increase_time
  mine_spaced-KeepsJournal zero interval s = untouched-KeepsJournal s
  mine_spaced-KeepsJournal (suc n) interval s =
      let later = (Clock.increase_time interval s).1 in
      then-KeepsJournal (same-KeepsJournal s later refl) (
        then-KeepsJournal (mine_empty-KeepsJournal ext now later)
          (mine_spaced-KeepsJournal n interval (mine_empty ext now later)))

  mine_blocks-KeepsJournal :
      (n interval : ℕ) (s : ChainState Db) → KeepsJournal s (mine_blocks ext now n interval s)
  unfolding mine_blocks
  mine_blocks-KeepsJournal zero interval s = untouched-KeepsJournal s
  mine_blocks-KeepsJournal (suc n) interval s =
      then-KeepsJournal (mine_empty-KeepsJournal ext now s)
        (mine_spaced-KeepsJournal n interval (mine_empty ext now s))

  pinned-KeepsJournal :
      (timestamp : ℕ) (s t : ChainState Db)
      → map_err (of_error formats) (Clock.set_next_timestamp timestamp s) ≡ ok t
      → KeepsJournal s t
  pinned-KeepsJournal timestamp s t h =
      let taken = map_err-eq-ok (of_error formats) (Clock.set_next_timestamp timestamp s) h in
      subst (KeepsJournal s) (ap (kept_or s) taken)
        (same-KeepsJournal s _ (pinned_journal timestamp s))

  mine-KeepsJournal :
      (asked : Result RpcError Mine) (s t : ChainState Db)
      → mine formats ext now asked s ≡ ok t
      → KeepsJournal s t
  unfolding mine
  mine-KeepsJournal (err e) s t h = cc
  mine-KeepsJournal (ok m) s t h =
      let (u, pinned, done) = >>=-eq-ok (pinned_first formats ext now m.pinned s) _ h in
      subst (KeepsJournal s) (ok_eq done) (
        then-KeepsJournal (first m.pinned u pinned) (mine_blocks-KeepsJournal m.count m.interval u))
    where
      first :
          (at : Option ℕ) (u : ChainState Db)
          → pinned_first formats ext now at s ≡ ok u
          → KeepsJournal s u
      first none u e = subst (KeepsJournal s) (ok_eq e) (untouched-KeepsJournal s)
      first (some timestamp) u e = pinned-KeepsJournal timestamp s u e

  balance-KeepsJournal :
      (params : List Value) (s t : ChainState Db)
      → balance_cheat formats ext now params s ≡ ok t
      → KeepsJournal s t
  balance-KeepsJournal params s t h =
      let (a, e0, h0) = >>=-eq-ok (parse_address formats (get_elem? params 0)) _ h in
      let (wei, e1, h1) =
        >>=-eq-ok (parse_quantity formats (get_elem? params 1) (codes "balance")) _ h0 in
      let (balance, e2, h2) = >>=-eq-ok (map_err _ (from_weibar_exact wei)) _ h1 in
      subst (KeepsJournal s) (ok_eq h2)
        (same-KeepsJournal s _ (journal-set_balance ext a balance now s))

  code-KeepsJournal :
      (params : List Value) (s t : ChainState Db)
      → code_cheat formats ext now params s ≡ ok t
      → KeepsJournal s t
  code-KeepsJournal params s t h =
      let (a, e0, h0) = >>=-eq-ok (parse_address formats (get_elem? params 0)) _ h in
      let (code, e1, h1) =
        >>=-eq-ok (parse_bytes formats (get_elem? params 1) (codes "code")) _ h0 in
      subst (KeepsJournal s) (ok_eq h1) (same-KeepsJournal s _ (journal-set_code ext a code s))

  nonce-KeepsJournal :
      (params : List Value) (s t : ChainState Db)
      → nonce_cheat formats ext now params s ≡ ok t
      → KeepsJournal s t
  nonce-KeepsJournal params s t h =
      let (a, e0, h0) = >>=-eq-ok (parse_address formats (get_elem? params 0)) _ h in
      let (nonce, e1, h1) =
        >>=-eq-ok (parse_u64 formats (get_elem? params 1) (codes "nonce")) _ h0 in
      subst (KeepsJournal s) (ok_eq h1) (same-KeepsJournal s _ (journal-set_nonce ext a nonce s))

  storage-KeepsJournal :
      (params : List Value) (s t : ChainState Db)
      → storage_cheat formats ext now params s ≡ ok t
      → KeepsJournal s t
  unfolding Cheats.set_storage
  storage-KeepsJournal params s t h =
      let (a, e0, h0) = >>=-eq-ok (parse_address formats (get_elem? params 0)) _ h in
      let (slot, e1, h1) =
        >>=-eq-ok (parse_quantity formats (get_elem? params 1) (codes "slot")) _ h0 in
      let (word, e2, h2) =
        >>=-eq-ok (parse_quantity formats (get_elem? params 2) (codes "value")) _ h1 in
      subst (KeepsJournal s) (ok_eq h2) (same-KeepsJournal s _ refl)

  timestamp-KeepsJournal :
      (params : List Value) (s t : ChainState Db)
      → timestamp_cheat formats ext now params s ≡ ok t
      → KeepsJournal s t
  timestamp-KeepsJournal params s t h =
      let (timestamp, e0, h0) =
        >>=-eq-ok (parse_u64 formats (get_elem? params 0) (codes "timestamp")) _ h in
      pinned-KeepsJournal timestamp s t h0

  impersonate-KeepsJournal :
      (params : List Value) (s t : ChainState Db)
      → impersonate_cheat formats ext now params s ≡ ok t
      → KeepsJournal s t
  impersonate-KeepsJournal params s t h =
      let (a, e0, h0) = >>=-eq-ok (parse_address formats (get_elem? params 0)) _ h in
      subst (KeepsJournal s) (ok_eq h0) (same-KeepsJournal s _ (journal-impersonate a s))

  stop-KeepsJournal :
      (params : List Value) (s t : ChainState Db)
      → stop_cheat formats ext now params s ≡ ok t
      → KeepsJournal s t
  unfolding Cheats.stop_impersonating
  stop-KeepsJournal params s t h =
      let (a, e0, h0) = >>=-eq-ok (parse_address formats (get_elem? params 0)) _ h in
      subst (KeepsJournal s) (ok_eq h0) (same-KeepsJournal s _ refl)

  cheat-AreOrderly :
      (what : Cheat) (method : Bytes) (params : List Value) (c : Chain Db)
      → AreOrderly c
      → AreOrderly (cheat formats ext now what method params c).0
  unfolding cheat Clock.increase_time
  cheat-AreOrderly evm_snapshot method params c v = snapshot-AreOrderly c v
  cheat-AreOrderly evm_revert method params c v =
      elim (outcome (parse_u64 formats (get_elem? params 0) (codes "snapshot id"))) [
        | error e eq ↦ rw (cheat, eq) v
        | value id eq ↦ rw (cheat, eq) (revert-AreOrderly id c v)
      ]
  cheat-AreOrderly evm_mine method params c v =
      changed-AreOrderly _ c _ (mine-KeepsJournal (evm_mine_params formats params) c.state) v
  cheat-AreOrderly anvil_mine method params c v =
      changed-AreOrderly _ c _ (mine-KeepsJournal (anvil_mine_params formats params) c.state) v
  cheat-AreOrderly increase_time method params c v =
      elim (outcome (parse_u64 formats (get_elem? params 0) (codes "seconds"))) [
        | error e eq ↦ rw (cheat, eq) v
        | value seconds eq ↦
            rw (cheat, eq)
              (record {
                head = kept-IsOrderly c.state _ (same-KeepsJournal c.state _ refl) v.head;
                copies = v.copies;
              })
      ]
  cheat-AreOrderly set_next_block_timestamp method params c v =
      changed-AreOrderly _ c _ (timestamp-KeepsJournal params c.state) v
  cheat-AreOrderly set_balance method params c v =
      changed-AreOrderly _ c _ (balance-KeepsJournal params c.state) v
  cheat-AreOrderly set_code method params c v =
      changed-AreOrderly _ c _ (code-KeepsJournal params c.state) v
  cheat-AreOrderly set_nonce method params c v =
      changed-AreOrderly _ c _ (nonce-KeepsJournal params c.state) v
  cheat-AreOrderly set_storage_at method params c v =
      changed-AreOrderly _ c _ (storage-KeepsJournal params c.state) v
  cheat-AreOrderly impersonate_account method params c v =
      changed-AreOrderly _ c _ (impersonate-KeepsJournal params c.state) v
  cheat-AreOrderly stop_impersonating_account method params c v =
      changed-AreOrderly _ c _ (stop-KeepsJournal params c.state) v
  cheat-AreOrderly node_info method params c v = v
  cheat-AreOrderly rejections method params c v = v
  cheat-AreOrderly automine method params c v = v
  cheat-AreOrderly state_file method params c v = v

  pub cheat_call-AreOrderly :
      (method : Bytes) (params : List Value) (c : Chain Db)
      → AreOrderly c
      → AreOrderly (cheat_call formats ext now method params c).0
  unfolding cheat_call
  cheat_call-AreOrderly method params c v = elim (Option-cases (cheat_of method)) [
    | inl missing ↦ rw (cheat_call, missing) v
    | inr (what, found) ↦ rw (cheat_call, found) (cheat-AreOrderly what method params c v)
  ]
