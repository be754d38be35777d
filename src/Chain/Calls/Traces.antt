-- ===== src/Chain/Calls/Traces.antt =====
-- Read-only calls leave the chain as it was, but for the EVM database.
use hanvil.Prelude.{
  ℕ, suc, zero, ◌+◌, ◌-◌, ◌/◌, ◌<◌, arith, ◌≡◌, refl, Bool, true, false, Option, none, some, ltb,
  ltb→lt, if◌then◌else◌,
}
use hanvil.Prelude.Result.{Result, ok, err}
use hanvil.Time.{Timestamp}
use hanvil.Blocks.{CallRequest}
use hanvil.Evm.{Externals, ExecutionResult, is_success, execute}
use hanvil.Chain.{ChainState, Error}
use hanvil.Chain.Execution.{sync_accounts_into_db}
use hanvil.Chain.Calls.{
  capped, with_gas, call, succeeds, bisect, confirm_found, search_gas, estimate_gas,
}

-- There is an outcome, and its state has the property.
abbrev pub EndsIn : {S A : Type 0} → (S → Type 0) → Option (S × A) → Type 0
EndsIn P none = ⊥
EndsIn P (some (s, a)) = P s

module _ {Db : Type 0} (ext : Externals Db) (request : CallRequest) (now : Timestamp)
    (s : ChainState Db) where
  -- `t` is `s` but for the database.
  abbrev pub Same : ChainState Db → Type 0
  Same t = record t { db = s.db } ≡ s

  call-Same : (r : CallRequest) (t : ChainState Db) → Same t → Same (call ext r now t).0
  unfolding call sync_accounts_into_db execute
  call-Same r t h = h

  succeeds-Same : (gas : ℕ) (t : ChainState Db) → Same t → Same (succeeds ext request now gas t).0
  unfolding succeeds
  succeeds-Same gas t h = call-Same (with_gas gas request) t h

  -- One round of the bisection, by what the test and the call give.
  round-Same :
      (n lo mid hi : ℕ) (b : Bool) (m : Result Error Bool) (t u : ChainState Db)
      → (b ≡ true → EndsIn Same (bisect ext n request now lo mid u))
      → (b ≡ true → EndsIn Same (bisect ext n request now mid hi u))
      → Same t
      → Same u
      → (let next : Option (ChainState Db × Result Error ℕ) = elim b [
        | false ↦ some (t, ok hi)
        | true ↦ elim m [
          | err e ↦ some (u, err e)
          | ok c ↦ elim c [
            | true ↦ bisect ext n request now lo mid u
            | false ↦ bisect ext n request now mid hi u
          ]
        ]
      ] in
          EndsIn Same next)
  round-Same n lo mid hi false m t u low high h k = h
  round-Same n lo mid hi true (err e) t u low high h k = k
  round-Same n lo mid hi true (ok true) t u low high h k = low refl
  round-Same n lo mid hi true (ok false) t u low high h k = high refl

  bisect-Same :
      (n lo hi : ℕ) (t : ChainState Db)
      → hi - lo < n
      → Same t
      → EndsIn Same (bisect ext n request now lo hi t)
  unfolding bisect
  bisect-Same zero lo hi t enough h = absurd (omega arith)
  bisect-Same (suc n) lo hi t enough h =
      let mid = lo + (hi - lo) / 2 in
      let tried = succeeds ext request now mid t in
      let after = succeeds-Same mid t h in
      round-Same n lo mid hi (ltb 1 (hi - lo)) tried.1 t tried.0
        (λ wide. bisect-Same n lo mid tried.0 (omega (arith, ltb→lt 1 (hi - lo) wide)) after)
        (λ wide. bisect-Same n mid hi tried.0 (omega (arith, ltb→lt 1 (hi - lo) wide)) after) h
        after

  confirm-Same :
      (cap : ℕ) (o : Option (ChainState Db × Result Error ℕ))
      → EndsIn Same o
      → EndsIn Same (confirm_found ext request now cap o)
  confirm-Same cap none h = absurd h
  confirm-Same cap (some (t, err e)) h = h
  confirm-Same cap (some (t, ok gas)) h = succeeds-Same gas t h

  -- The search, by what the call at its lower end gives.
  search-Same :
      (lo cap : ℕ) (m : Result Error Bool) (u : ChainState Db)
      → Same u
      → (let found : Option (ChainState Db × Result Error ℕ) = elim m [
        | err e ↦ some (u, err e)
        | ok c ↦ elim c [
          | true ↦ some (u, ok lo)
          | false ↦
              confirm_found ext request now cap (bisect ext (suc (cap - lo)) request now lo cap u)
        ]
      ] in
          EndsIn Same found)
  search-Same lo cap (err e) u h = h
  search-Same lo cap (ok true) u h = h
  search-Same lo cap (ok false) u h =
      confirm-Same cap _ (bisect-Same (suc (cap - lo)) lo cap u (omega arith) h)

  -- The estimate, by what the unconstrained run gives.
  estimate-Same :
      (cap : ℕ) (m : Result Error ExecutionResult) (u : ChainState Db)
      → Same u
      → (let found : Option (ChainState Db × Result Error ℕ) = elim m [
        | err e ↦ some (u, err e)
        | ok r ↦
            if is_success r then search_gas ext request now cap r.gas_used u else some (u, ok cap)
      ] in
          EndsIn Same found)
  estimate-Same cap (err e) u h = h
  estimate-Same cap (ok r) u h = either (is_success r)
    where
      either :
          (b : Bool)
          → EndsIn Same
              (if b then search_gas ext request now cap r.gas_used u else some (u, ok cap))
      either true =
          let tried = succeeds ext request now r.gas_used u in
          search-Same r.gas_used cap tried.1 tried.0 (succeeds-Same r.gas_used u h)
      either false = h

  -- `eth_call` leaves the chain as it was but for what revm's database caches; and
  -- `eth_estimateGas` always ends, with a chain that is as it was but for that: no account, block,
  -- record, timestamp or filter is touched, whatever the calls answer.
  pub call-estimate_gas_traceless :
      Same (call ext request now s).0 × EndsIn Same (estimate_gas ext request now s)
  unfolding estimate_gas
  call-estimate_gas_traceless =
      let cap = capped request.gas in
      let ran = call ext (with_gas cap request) now s in
      (
        call-Same request s refl,
        estimate-Same cap ran.1 ran.0 (call-Same (with_gas cap request) s refl),
      )
