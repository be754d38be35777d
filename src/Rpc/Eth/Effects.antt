-- ===== src/Rpc/Eth/Effects.antt =====
-- What the `eth_*` methods do to the chain: the records stay and the blocks stay linked; a refused
-- send leaves all but the refusals.
use hanvil.Prelude.{
  ℕ, ◌≡◌, refl, ap, Option, none, some, List, Bytes, codes, get_elem?, any, ◌∙◌, Bool, true, false,
  Bool-cases, Option-cases, inl, inr,
}
use hanvil.Prelude.Result.{Result, ok, err, outcome, value, error}
use hanvil.Units.{Address}
use hanvil.Time.{Timestamp}
use hanvil.Maps.BTreeMap
use hanvil.Text.{same_text}
use hanvil.Blocks.{CallRequest, B256}
use hanvil.Evm.{Externals, ExecutionResult, is_success}
use hanvil.Chain.{ChainState, Error}
use hanvil.Chain.Filters
use hanvil.Chain.Calls
use hanvil.Chain.Calls.Traces.{EndsIn, Same, call-estimate_gas_traceless}
use hanvil.Chain.Execution.{send_raw, send_unsigned}
use hanvil.Chain.Journal.{
  journal, KeepsJournal, untouched-KeepsJournal, same-KeepsJournal, then-KeepsJournal,
}
use hanvil.Chain.Journal.Runs.{send_raw-KeepsJournal, send_unsigned-KeepsJournal}
use hanvil.History.Journal.{journal-reject}
use hanvil.Rpc.{Value, Formats}
use hanvil.Rpc.Errors.{RpcError, of_error}
use hanvil.Rpc.Params.{parse_bytes, parse_u64, parse_log_filter}
use hanvil.Rpc.Eth.Methods.{
  Method, reads, new_filter, new_block_filter, uninstall_filter, get_filter_changes, call,
  estimate_gas, send_raw_transaction, send_transaction, method_of, unsupported_methods,
}
use hanvil.Rpc.Eth.Sending.{
  Answer, answered, failed, refused, settled, sent, raw_sender, call_sender, unsigned_tx,
  send_raw_answer, send_unsigned_answer,
}
use hanvil.Rpc.Eth.{handle, eth_call, head_call, probed, estimate_answer, changes_value}

module _ {Db : Type 0} where
  -- `t` is `s` but for what revm's database caches and for the installed filters.
  pub record Quiet (s t : ChainState Db) : Type 0 where
    pub same : record t { db = s.db; filters = s.filters; next_filter = s.next_filter } ≡ s

  still-Quiet : (s : ChainState Db) → Quiet s s
  still-Quiet s = record { same = refl }

  traceless-Quiet : (s t : ChainState Db) → record t { db = s.db } ≡ s → Quiet s t
  traceless-Quiet s t h = record {
    same =
        ap
          (λ (x : ChainState Db).
            let y : ChainState Db = record x { filters = s.filters; next_filter = s.next_filter } in
            y)
          h;
  }

  then-Quiet : (s t u : ChainState Db) → Quiet s t → Quiet t u → Quiet s u
  then-Quiet s t u h k = record {
    same =
        ap
          (λ (x : ChainState Db).
            let y : ChainState Db = record x {
              db = s.db;
              filters = s.filters;
              next_filter = s.next_filter;
            } in
            y)
          k.same
        ∙ h.same;
  }

  Quiet-KeepsJournal : (s t : ChainState Db) → Quiet s t → KeepsJournal s t
  Quiet-KeepsJournal s t h = same-KeepsJournal s t (ap journal h.same)

-- The two methods that send.
abbrev pub is_send : Method → Bool
is_send send_raw_transaction = true
is_send send_transaction = true
is_send m = false

abbrev pub names_send : Bytes → Bool
names_send method = elim (method_of method) [ none ↦ false | some m ↦ is_send m ]

module _ (formats : Formats) {Db : Type 0} (ext : Externals Db) (now : Timestamp) where
  refused-KeepsJournal :
      (sender : Option Address) (e : RpcError) (s : ChainState Db)
      → KeepsJournal s (refused formats ext now sender e s)
  unfolding refused
  refused-KeepsJournal sender e s = same-KeepsJournal s _ (journal-reject _ s)

  settled-KeepsJournal :
      (s : ChainState Db) (sender : Option Address) (o : ChainState Db × Result RpcError B256)
      → KeepsJournal s o.0
      → KeepsJournal s (settled formats ext now sender o).0
  settled-KeepsJournal s sender (t, ok h) k = k
  settled-KeepsJournal s sender (t, err e) k = then-KeepsJournal k (refused-KeepsJournal sender e t)

  send_raw_answer-KeepsJournal :
      (param : Option Value) (s : ChainState Db)
      → KeepsJournal s (send_raw_answer formats ext now param s).0
  unfolding send_raw_answer
  send_raw_answer-KeepsJournal param s =
      elim (outcome (parse_bytes formats param (codes "transaction"))) [
        | error e eq ↦
            rw (eq, send_raw_answer)
              (settled-KeepsJournal s none (s, err e) (untouched-KeepsJournal s))
        | value raw eq ↦
            rw (eq, send_raw_answer)
              (settled-KeepsJournal s (raw_sender formats ext now (ok raw))
                (sent formats ext now (send_raw ext raw now s))
                (send_raw-KeepsJournal ext raw now s))
      ]

  send_unsigned_answer-KeepsJournal :
      (param : Option Value) (s : ChainState Db)
      → KeepsJournal s (send_unsigned_answer formats ext now param s).0
  unfolding send_unsigned_answer
  send_unsigned_answer-KeepsJournal param s = elim (outcome (unsigned_tx formats ext now param s)) [
    | error e eq ↦
        rw (eq, send_unsigned_answer)
          (settled-KeepsJournal s (call_sender formats ext now param) (s, err e)
            (untouched-KeepsJournal s))
    | value tx eq ↦
        rw (eq, send_unsigned_answer)
          (settled-KeepsJournal s (call_sender formats ext now param)
            (sent formats ext now (send_unsigned ext tx now s))
            (send_unsigned-KeepsJournal ext tx now s))
  ]

  estimated-Quiet :
      (request : CallRequest) (s : ChainState Db)
      → Quiet s (estimate_answer formats ext now (Calls.estimate_gas ext request now s) s).0
  estimated-Quiet request s =
      by_end (Calls.estimate_gas ext request now s)
        (call-estimate_gas_traceless ext request now s).1
    where
      by_end :
          (o : Option (ChainState Db × Result Error ℕ))
          → EndsIn (Same ext request now s) o
          → Quiet s (estimate_answer formats ext now o s).0
      by_end none h = absurd h
      by_end (some (t, err e)) h = traceless-Quiet s t h
      by_end (some (t, ok gas)) h = traceless-Quiet s t h

  probed-Quiet :
      (request : CallRequest) (s : ChainState Db) (o : ChainState Db × Result Error ExecutionResult)
      → Quiet s o.0
      → Quiet s (probed formats ext now request o).0
  probed-Quiet request s (t, err e) k = k
  probed-Quiet request s (t, ok probe) k = elim (Bool-cases (is_success probe)) [
    | inl up ↦ rw up (then-Quiet s t _ k (estimated-Quiet request t))
    | inr down ↦ rw down k
  ]

  polled-Quiet :
      (id : ℕ) (s : ChainState Db)
      → (let answer : ChainState Db × Answer = elim (Filters.filter_changes id s) [
        | err e ↦ (s, failed (of_error formats e))
        | ok (changes, t) ↦ (t, answered (ok (changes_value changes)))
      ] in
          Quiet s answer.0)
  unfolding Filters.filter_changes
  polled-Quiet id s = elim (Option-cases (BTreeMap.get id s.filters)) [
    | inl missing ↦ rw (Filters.filter_changes, missing) (still-Quiet s)
    | inr (f, found) ↦ rw (Filters.filter_changes, found) (record { same = refl })
  ]

  handle-Quiet :
      (m : Method) (params : List Value) (s : ChainState Db)
      → is_send m ≡ false
      → Quiet s (handle formats ext now m params s).0
  unfolding handle Filters.install_log_filter Filters.install_block_filter Filters.install
      Filters.uninstall_filter
  handle-Quiet (reads what) params s quiet = still-Quiet s
  handle-Quiet new_filter params s quiet =
      elim (outcome (parse_log_filter formats s (get_elem? params 0))) [
        | error e eq ↦ rw (eq, handle) (still-Quiet s)
        | value query eq ↦ rw (eq, handle) (record { same = refl })
      ]
  handle-Quiet new_block_filter params s quiet = record { same = refl }
  handle-Quiet uninstall_filter params s quiet =
      elim (outcome (parse_u64 formats (get_elem? params 0) (codes "filter id"))) [
        | error e eq ↦ rw (eq, handle) (still-Quiet s)
        | value id eq ↦ rw (eq, handle) (record { same = refl })
      ]
  handle-Quiet get_filter_changes params s quiet =
      elim (outcome (parse_u64 formats (get_elem? params 0) (codes "filter id"))) [
        | error e eq ↦ rw (eq, handle) (still-Quiet s)
        | value id eq ↦ rw (eq, handle) (polled-Quiet id s)
      ]
  handle-Quiet call params s quiet = elim (outcome (head_call formats ext now params s)) [
    | error e eq ↦ rw (eq, handle) (still-Quiet s)
    | value request eq ↦
        rw (eq, handle) (traceless-Quiet s _ (call-estimate_gas_traceless ext request now s).0)
  ]
  handle-Quiet estimate_gas params s quiet = elim (outcome (head_call formats ext now params s)) [
    | error e eq ↦ rw (eq, handle) (still-Quiet s)
    | value request eq ↦
        rw (eq, handle)
          (probed-Quiet request s (Calls.call ext request now s)
            (traceless-Quiet s _ (call-estimate_gas_traceless ext request now s).0))
  ]
  handle-Quiet send_raw_transaction params s quiet = cc
  handle-Quiet send_transaction params s quiet = cc

  handle-KeepsJournal :
      (m : Method) (params : List Value) (s : ChainState Db)
      → KeepsJournal s (handle formats ext now m params s).0
  unfolding handle
  handle-KeepsJournal send_raw_transaction params s =
      send_raw_answer-KeepsJournal (get_elem? params 0) s
  handle-KeepsJournal send_transaction params s =
      send_unsigned_answer-KeepsJournal (get_elem? params 0) s
  handle-KeepsJournal m params s = Quiet-KeepsJournal s _ (handle-Quiet m params s refl)

  pub eth_call-KeepsJournal :
      (method : Bytes) (params : List Value) (s : ChainState Db)
      → KeepsJournal s (eth_call formats ext now method params s).0
  unfolding eth_call
  eth_call-KeepsJournal method params s =
      elim (Bool-cases (any (same_text method) unsupported_methods)) [
        | inl over ↦ rw (over, eth_call) (untouched-KeepsJournal s)
        | inr known ↦ elim (Option-cases (method_of method)) [
          | inl missing ↦ rw (known, eth_call) (rw (missing, eth_call) (untouched-KeepsJournal s))
          | inr (m, found) ↦
              rw (known, eth_call) (rw (found, eth_call) (handle-KeepsJournal m params s))
        ]
      ]

  -- Whatever its parameters and whatever it answers, a method of `eth_*`, `net_*` or `web3_*`, known
  -- or not, that is none of the two that send changes nothing of the chain but what revm's database
  -- caches and the installed filters: no account, block, record, topic, timestamp or refusal.
  pub eth_call-Quiet :
      (method : Bytes) (params : List Value) (s : ChainState Db)
      → names_send method ≡ false
      → Quiet s (eth_call formats ext now method params s).0
  unfolding eth_call
  eth_call-Quiet method params s quiet =
      elim (Bool-cases (any (same_text method) unsupported_methods)) [
        | inl over ↦ rw (over, eth_call) (still-Quiet s)
        | inr known ↦ elim (Option-cases (method_of method)) [
          | inl missing ↦ rw (known, eth_call) (rw (missing, eth_call) (still-Quiet s))
          | inr (m, found) ↦
              rw (known, eth_call)
                (rw (found, eth_call) (handle-Quiet m params s (rw (found, names_send) at quiet)))
        ]
      ]
