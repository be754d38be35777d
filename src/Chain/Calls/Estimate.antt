-- ===== src/Chain/Calls/Estimate.antt =====
-- What `estimate_gas` answers.
use hanvil.Prelude.{
  ℕ, zero, suc, ◌+◌, ◌-◌, ◌/◌, ◌≤◌, ◌<◌, ◌≡◌, ◌≢◌, inl, inr, refl, ◌∙◌, ap, sym, true, false,
  Option, some, arith, ltb, ltb→lt, ltb→ge, Bool-cases,
}
use hanvil.Prelude.Result.{Result, ok, err, value, error, outcome}
use hanvil.Time.{Timestamp}
use hanvil.Blocks.{CallRequest}
use hanvil.Evm.{Externals, ExecutionResult, is_success}
use hanvil.Chain.{ChainState, Error}
use hanvil.Chain.Calls.{
  capped, with_gas, call, succeeds, bisect, confirm, confirm_found, search_gas, estimate_gas,
}

same_run :
    (a b : ExecutionResult) → (let m : Result Error ExecutionResult = ok a in m ≡ ok b) → a ≡ b
same_run a b h = cc

run_ne_error :
    (r : ExecutionResult) (e : Error) → (let m : Result Error ExecutionResult = ok r in m ≢ err e)
run_ne_error r e h = cc

true_ne_false : true ≢ false
true_ne_false h = cc

lt_of_ne : (a b : ℕ) → a ≤ b → a ≢ b → a < b
lt_of_ne a b h k = elim (Bool-cases (ltb a b)) [
  | inl e ↦ ltb→lt a b e
  | inr e ↦ absurd (k (omega (arith, h, ltb→ge a b e)))
]

module _ {Db : Type 0} (ext : Externals Db) (request : CallRequest) (now : Timestamp)
    (s : ChainState Db) where
  -- The states that read-only calls of the request at some gas limits lead to.
  pub data Called : ChainState Db → Type 0 where
    here : Called s
    next :
        {t : ChainState Db}
        → Called t
        → (gas : ℕ) → Called (call ext (with_gas gas request) now t).0

  -- What the call answers at a gas limit, on the state at the start.
  abbrev pub answer : ℕ → Result Error ExecutionResult
  answer gas = (call ext (with_gas gas request) now s).1

  -- A read-only call answers the same whichever read-only calls went before it.
  abbrev pub IsSteady : Type 0
  IsSteady =
      (t : ChainState Db)
      → Called t
      → (gas : ℕ) → (call ext (with_gas gas request) now t).1 ≡ answer gas

  pub data Succeeds (gas : ℕ) : Type 0 where
    runs : (r : ExecutionResult) → answer gas ≡ ok r → is_success r ≡ true → Succeeds gas

  pub data Fails (gas : ℕ) : Type 0 where
    stops : (r : ExecutionResult) → answer gas ≡ ok r → is_success r ≡ false → Fails gas

  -- A limit that succeeds behind one that fails.
  pub record IsEdge (lo gas hi : ℕ) : Type 0 where
    pub good : Succeeds gas
    pub bad : Fails (gas - 1)
    pub above : lo < gas
    pub below : gas ≤ hi

  -- Every way in which the estimate can end.
  pub data Estimate (result : Option (ChainState Db × Result Error ℕ)) : Type 0 where
    refused :
        (t : ChainState Db) (gas : ℕ) (e : Error)
        → answer gas ≡ err e
        → result ≡ some (t, err e)
        → Estimate result
    hopeless :
        (t : ChainState Db)
        → Fails (capped request.gas)
        → result ≡ some (t, ok (capped request.gas))
        → Estimate result
    unconstrained :
        (t : ChainState Db) (r : ExecutionResult)
        → answer (capped request.gas) ≡ ok r
        → Succeeds r.gas_used
        → result ≡ some (t, ok r.gas_used)
        → Estimate result
    edge :
        (t : ChainState Db) (r : ExecutionResult) (gas : ℕ)
        → answer (capped request.gas) ≡ ok r
        → IsEdge r.gas_used gas (capped request.gas)
        → result ≡ some (t, ok gas)
        → Estimate result

  -- One try, as the three ways in which it can end.
  data Tried (t : ChainState Db) (gas : ℕ) : Type 0 where
    good : Succeeds gas → (succeeds ext request now gas t).1 ≡ ok true → Tried t gas
    bad : Fails gas → (succeeds ext request now gas t).1 ≡ ok false → Tried t gas
    wrong :
        (e : Error) → answer gas ≡ err e → (succeeds ext request now gas t).1 ≡ err e → Tried t gas

  try_state : (t : ChainState Db) (gas : ℕ) → Called t → Called (succeeds ext request now gas t).0
  unfolding succeeds
  try_state t gas reached = next reached gas

  succeeds-Tried : (t : ChainState Db) (gas : ℕ) → IsSteady → Called t → Tried t gas
  unfolding succeeds
  succeeds-Tried t gas steady reached = elim (outcome (call ext (with_gas gas request) now t).1) [
    | error e eq ↦ wrong e (sym (steady t reached gas) ∙ eq) (rw (eq, succeeds) refl)
    | value r eq ↦ elim (Bool-cases (is_success r)) [
      | inl up ↦ good (runs r (sym (steady t reached gas) ∙ eq) up) (rw (eq, succeeds) (ap ok up))
      | inr down ↦
          bad (stops r (sym (steady t reached gas) ∙ eq) down) (rw (eq, succeeds) (ap ok down))
    ]
  ]

  -- The loop ends at an edge, or at a call that is refused.
  data Bisected (lo hi : ℕ) (result : Option (ChainState Db × Result Error ℕ)) : Type 0 where
    ends :
        (t : ChainState Db) (gas : ℕ)
        → Called t
        → IsEdge lo gas hi
        → result ≡ some (t, ok gas)
        → Bisected lo hi result
    aborts :
        (t : ChainState Db) (gas : ℕ) (e : Error)
        → answer gas ≡ err e
        → result ≡ some (t, err e)
        → Bisected lo hi result

  -- An edge in a part of the range is one in the whole.
  widen :
      (lo hi lo' hi' : ℕ) (m n : Option (ChainState Db × Result Error ℕ))
      → lo ≤ lo'
      → hi' ≤ hi
      → m ≡ n
      → Bisected lo' hi' n
      → Bisected lo hi m
  widen lo hi lo' hi' m n h k e (ends t gas reached there eq) =
      ends t gas reached
        (record {
          good = there.good;
          bad = there.bad;
          above = omega (arith, h, there.above);
          below = omega (arith, k, there.below);
        })
        (e ∙ eq)
  widen lo hi lo' hi' m n h k e (aborts t gas x stopped eq) = aborts t gas x stopped (e ∙ eq)

  Fails-same : (a b : ℕ) → a ≡ b → Fails a → Fails b
  Fails-same a b e f = rw (sym e) f

  bisect-Bisected :
      (fuel lo hi : ℕ) (t : ChainState Db)
      → hi - lo < fuel
      → lo < hi
      → IsSteady
      → Called t
      → Fails lo
      → Succeeds hi
      → Bisected lo hi (bisect ext fuel request now lo hi t)
  unfolding bisect
  bisect-Bisected zero lo hi t enough below steady reached f g = absurd (omega arith)
  bisect-Bisected (suc n) lo hi t enough below steady reached f g =
      elim (Bool-cases (ltb 1 (hi - lo))) [
        | inr narrow ↦
            ends t hi reached
              (record {
                good = g;
                bad = Fails-same lo (hi - 1) (omega (arith, ltb→ge 1 (hi - lo) narrow)) f;
                above = below;
                below = omega arith;
              })
              (rw (narrow, bisect) refl)
        | inl wide ↦
            (let mid = lo + (hi - lo) / 2 in
              let after = (succeeds ext request now mid t).0 in
              let gap : 1 < hi - lo = ltb→lt 1 (hi - lo) wide in
              elim (succeeds-Tried t mid steady reached) [
                | wrong e stopped eq ↦ aborts after mid e stopped (rw (wide, eq, bisect) refl)
                | good up eq ↦
                    widen lo hi lo mid _ (bisect ext n request now lo mid after) (omega arith)
                      (omega (arith, gap)) (rw (wide, eq, bisect) refl)
                      (bisect-Bisected n lo mid after (omega (arith, gap)) (omega (arith, gap))
                        steady (try_state t mid reached) f up)
                | bad down eq ↦
                    widen lo hi mid hi _ (bisect ext n request now mid hi after) (omega arith)
                      (omega arith) (rw (wide, eq, bisect) refl)
                      (bisect-Bisected n mid hi after (omega (arith, gap)) (omega (arith, gap))
                        steady (try_state t mid reached) down g)
              ])
      ]

  not_both : (gas : ℕ) → Succeeds gas → Fails gas → ⊥
  not_both gas (runs r e up) (stops r' e' down) =
      true_ne_false (sym up ∙ (ap is_success (same_run r r' (sym e ∙ e')) ∙ down))

  not_run : (gas : ℕ) (e : Error) → Succeeds gas → answer gas ≡ err e → ⊥
  not_run gas e (runs r eq up) stopped = run_ne_error r e (sym eq ∙ stopped)

  confirmed :
      (t : ChainState Db) (cap gas : ℕ)
      → IsSteady
      → Called t
      → Succeeds gas
      → confirm ext request now cap gas t ≡ ((succeeds ext request now gas t).0, ok gas)
  confirmed t cap gas steady reached up = elim (succeeds-Tried t gas steady reached) [
    | good up' eq ↦ rw eq refl
    | bad down eq ↦ absurd (not_both gas up down)
    | wrong e stopped eq ↦ absurd (not_run gas e up stopped)
  ]

  search_gas-Estimate :
      (t : ChainState Db) (r : ExecutionResult)
      → IsSteady
      → Called t
      → answer (capped request.gas) ≡ ok r
      → is_success r ≡ true
      → r.gas_used ≤ capped request.gas
      → Estimate (search_gas ext request now (capped request.gas) r.gas_used t)
  search_gas-Estimate t r steady reached ran up bound =
      let cap = capped request.gas in
      let after = (succeeds ext request now r.gas_used t).0 in
      elim (succeeds-Tried t r.gas_used steady reached) [
        | wrong e stopped eq ↦ refused after r.gas_used e stopped (rw (eq, search_gas) refl)
        | good found eq ↦ unconstrained after r ran found (rw (eq, search_gas) refl)
        | bad down eq ↦
            (let below : r.gas_used < cap =
                lt_of_ne r.gas_used cap bound
                  λ e. not_both cap (runs r ran up) (Fails-same r.gas_used cap e down) in
              elim (bisect-Bisected (suc (cap - r.gas_used)) r.gas_used cap after (omega arith)
                below steady (try_state t r.gas_used reached) down (runs r ran up)) [
                  | aborts u gas e stopped found ↦
                      refused u gas e stopped (rw (eq, search_gas) (rw (found, confirm_found) refl))
                  | ends u gas back there found ↦
                      edge (succeeds ext request now gas u).0 r gas ran there (
                        rw (eq, search_gas)
                          (rw (found, confirm_found)
                            (ap some (confirmed u cap gas steady back there.good))))
                ])
      ]

  -- If read-only calls of the request answer the same whichever of them went before, and the
  -- unconstrained run uses no more gas than its limit, then `estimate_gas` ends, and it answers in
  -- one of four ways: with the refusal of a call; with the cap, where the run at the cap fails; with
  -- the gas that the unconstrained run used, where that succeeds as a limit; or with a limit between
  -- that and the cap that succeeds while the next lower one fails. It never gives up on an estimate.
  pub estimate_gas-Estimate :
      IsSteady
      → ((r : ExecutionResult)
          → answer (capped request.gas) ≡ ok r
          → r.gas_used ≤ capped request.gas)
      → Estimate (estimate_gas ext request now s)
  unfolding estimate_gas
  estimate_gas-Estimate steady bound =
      let cap = capped request.gas in
      let after = (call ext (with_gas cap request) now s).0 in
      elim (outcome (answer cap)) [
        | error e eq ↦ refused after cap e eq (rw (eq, estimate_gas) refl)
        | value r eq ↦ elim (Bool-cases (is_success r)) [
          | inr down ↦ hopeless after (stops r eq down) (rw (eq, estimate_gas) (rw down refl))
          | inl up ↦
              rw (eq, estimate_gas)
                (rw up (search_gas-Estimate after r steady (next here cap) eq up (bound r eq)))
        ]
      ]
