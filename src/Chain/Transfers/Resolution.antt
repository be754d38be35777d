-- ===== src/Chain/Transfers/Resolution.antt =====
-- What `resolve` makes of a transfer list: live ids with the amounts, and credits to new addresses.
use hanvil.Prelude.{
  ℕ, ◌+◌, ◌≤◌, ◌<◌, ◌≡◌, refl, ◌∙◌, subst, ℤ, pos_part, neg_part, +ℤ_parts, true, false, some, List,
  [], ◌∷◌, ◌++◌, All, arith, any, length, length-append, Option-cases, inl, inr,
}
use hanvil.Prelude.Result.{Result, ok, >>=-eq-ok}
use hanvil.Prelude.Eq.{nat_eq}
use hanvil.Word.{i64_mod}
use hanvil.Maps.BTreeMap
use hanvil.Maps.HashMap
use hanvil.Maps.Totals.{get-le-total}
use hanvil.Units.{Address}
use hanvil.Accounts.{EntityId, Account}
use hanvil.Records.{AccountRef}
use hanvil.Records.Responses.{Status}
use hanvil.Chain.{ChainState, is_live, balance_of}
use hanvil.Chain.Supply.{supply}
use hanvil.Chain.Transfers.{Resolved, resolve_id, resolve_one, resolve, sum_amounts, is_unfunded}
use hanvil.Chain.Transfers.Legs.{credits, debits, IsCovered}

credits-append {ℓ} :
    {A : Type ℓ} (xs ys : List (A × ℤ)) → credits (xs ++ ys) ≡ credits xs + credits ys
credits-append [] ys = omega arith
credits-append ((a, z) ∷ xs) ys = omega (arith, credits-append xs ys)

debits-append {ℓ} : {A : Type ℓ} (xs ys : List (A × ℤ)) → debits (xs ++ ys) ≡ debits xs + debits ys
debits-append [] ys = omega arith
debits-append ((a, z) ∷ xs) ys = omega (arith, debits-append xs ys)

-- A list sums to zero exactly when its credits and debits agree.
pub sum_amounts_parts :
    (l : List (AccountRef × ℤ))
    → pos_part (sum_amounts l) + debits l ≡ neg_part (sum_amounts l) + credits l
unfolding sum_amounts
sum_amounts_parts [] = refl
sum_amounts_parts ((a, z) ∷ l) = omega (arith, +ℤ_parts z (sum_amounts l), sum_amounts_parts l)

All-append {ℓ κ} :
    {A : Type ℓ} (P : A → Type κ) (xs : List A) (y : A) → All P xs → P y → All P (xs ++ y ∷ [])
All-append P [] y h p = (p, tt)
All-append P (x ∷ xs) y h p = (h.0, All-append P xs y h.1 p)

no_debit : (a : ℤ) → 0 < pos_part a → neg_part a ≡ 0
no_debit a h = ground arith

-- Every amount is an i64.
abbrev pub Small : List (AccountRef × ℤ) → Type 0
Small = All λ x. pos_part x.1 < i64_mod

ok_injective : (a b : Resolved) → let l : Result Status Resolved = ok a in l ≡ ok b → a ≡ b
ok_injective a b h = cc

module _ {Db : Type 0} (s : ChainState Db) where
  -- A resolved leg: the account is live and the amount is an i64.
  pub record IsLeg (leg : EntityId × ℤ) : Type 0 where
    pub live : is_live s leg.0 ≡ true
    pub small : pos_part leg.1 < i64_mod

  -- What a pair of lists holds together.
  pub record Parts (acc : Resolved) (paid received count : ℕ) : Type 0 where
    pub paid_by : debits (acc.0) + debits (acc.1) ≡ paid
    pub received_by : credits (acc.0) + credits (acc.1) ≡ received
    pub credits_only : debits (acc.1) ≡ 0
    pub counted : length (acc.1) ≤ count
    pub legs : All IsLeg (acc.0)

  resolve_id_live : (i j : EntityId) → resolve_id s i ≡ ok j → (i ≡ j) × (is_live s i ≡ true)
  unfolding resolve_id
  resolve_id_live i j h = (ground arith, ground arith)

  -- A reference names a live account, or is a credit to an address that is not known.
  pub data Outcome (amount : ℤ) (acc acc' : Resolved) : Type 0 where
    known :
        (j : EntityId)
        → is_live s j ≡ true
        → acc' ≡ (acc.0 ++ (j, amount) ∷ [], acc.1)
        → Outcome amount acc acc'
    unknown :
        (address : Address)
        → 0 < pos_part amount
        → acc' ≡ (acc.0, acc.1 ++ (address, amount) ∷ [])
        → Outcome amount acc acc'

  resolve_one_id :
      (i : EntityId) (amount : ℤ) (acc acc' : Resolved)
      → resolve_one s (AccountRef.id i, amount) acc ≡ ok acc'
      → Outcome amount acc acc'
  unfolding resolve_one resolve_id
  resolve_one_id i amount (res, cre) acc' h = known i (ground arith) (ground arith)

  resolve_one_alias :
      (address : Address) (amount : ℤ) (acc acc' : Resolved)
      → resolve_one s (AccountRef.alias address, amount) acc ≡ ok acc'
      → Outcome amount acc acc'
  unfolding resolve_one
  resolve_one_alias address amount (res, cre) acc' h =
      elim (Option-cases (HashMap.get address s.by_evm)) [
        | inl e ↦ unknown address (ground arith) (ground arith)
        | inr (i, e) ↦ known i (ground arith) (ground arith)
      ]

  extend :
      (amount : ℤ) (acc acc' : Resolved) (paid received count : ℕ)
      → pos_part amount < i64_mod
      → Parts acc paid received count
      → Outcome amount acc acc'
      → Parts acc' (paid + neg_part amount) (received + pos_part amount) (count + 1)
  extend amount (res, cre) acc' paid received count small p (known j live e) = rw e (record {
    paid_by = omega (arith, p.paid_by, debits-append res ((j, amount) ∷ []));
    received_by = omega (arith, p.received_by, credits-append res ((j, amount) ∷ []));
    credits_only = p.credits_only;
    counted = omega (arith, p.counted);
    legs = All-append IsLeg res (j, amount) p.legs (record { live = live; small = small });
  })
  extend amount (res, cre) acc' paid received count small p (unknown address credit e) =
      rw e (record {
        paid_by = omega (arith, p.paid_by, debits-append cre ((address, amount) ∷ []));
        received_by = omega (arith, p.received_by, credits-append cre ((address, amount) ∷ []));
        credits_only = omega (
          arith,
          p.credits_only,
          debits-append cre ((address, amount) ∷ []),
          no_debit amount credit,
        );
        counted = omega (arith, p.counted, length-append cre ((address, amount) ∷ []));
        legs = p.legs;
      })

  resolve_one-Outcome :
      (x : AccountRef × ℤ) (acc acc' : Resolved)
      → resolve_one s x acc ≡ ok acc'
      → Outcome x.1 acc acc'
  resolve_one-Outcome (AccountRef.id i, amount) acc acc' h = resolve_one_id i amount acc acc' h
  resolve_one-Outcome (AccountRef.alias address, amount) acc acc' h =
      resolve_one_alias address amount acc acc' h

  restate :
      (acc : Resolved) {paid received count paid' received' count' : ℕ}
      → Parts acc paid received count
      → paid ≡ paid'
      → received ≡ received'
      → count ≤ count'
      → Parts acc paid' received' count'
  restate acc p e f g = record {
    paid_by = p.paid_by ∙ e;
    received_by = p.received_by ∙ f;
    credits_only = p.credits_only;
    counted = omega (arith, p.counted);
    legs = p.legs;
  }

  -- The two lists hold together what the transfer list holds.
  pub resolve-Parts :
      (l : List (AccountRef × ℤ)) (acc acc' : Resolved) (paid received count : ℕ)
      → Small l
      → Parts acc paid received count
      → resolve s l acc ≡ ok acc'
      → Parts acc' (paid + debits l) (received + credits l) (count + length l)
  unfolding resolve
  resolve-Parts [] acc acc' paid received count small p h =
      subst (λ a. Parts a (paid + 0) (received + 0) (count + 0)) (ok_injective acc acc' h)
        (restate acc p (omega arith) (omega arith) (omega arith))
  resolve-Parts (x ∷ xs) acc acc' paid received count small p h =
      let (mid, first, rest) = >>=-eq-ok (resolve_one s x acc) (resolve s xs) h in
      restate acc'
        (resolve-Parts xs mid acc' _ _ _ small.1
          (extend x.1 acc mid paid received count small.0 p (resolve_one-Outcome x acc mid first))
          rest)
        (omega arith) (omega arith) (omega arith)

  any_cons :
      (leg : EntityId × ℤ) (legs : List (EntityId × ℤ))
      → any (is_unfunded s) (leg ∷ legs) ≡ false
      → (is_unfunded s leg ≡ false) × (any (is_unfunded s) legs ≡ false)
  any_cons leg legs h = (ground arith, ground arith)

  get_live :
      (i : EntityId) → is_live s i ≡ true → (a : Account) × (BTreeMap.get i s.accounts ≡ some a)
  unfolding is_live
  get_live i h = ground arith

  -- A live leg whose debit the account covers.
  leg-IsCovered :
      (leg : EntityId × ℤ)
      → supply s < i64_mod
      → IsLeg leg
      → is_unfunded s leg ≡ false
      → IsCovered s leg
  unfolding is_unfunded balance_of
  leg-IsCovered (i, amount) bounded l h =
      let (a, found) = get_live i l.live in
      record {
        holder = a;
        found = found;
        covers = ground arith;
        fits = omega (arith, get-le-total (λ b. b.balance) i a s.accounts found, l.small);
      }

  pub legs-IsCovered :
      (legs : List (EntityId × ℤ))
      → supply s < i64_mod
      → All IsLeg legs
      → any (is_unfunded s) legs ≡ false
      → All (IsCovered s) legs
  legs-IsCovered [] bounded l h = tt
  legs-IsCovered (leg ∷ legs) bounded l h =
      let (now, later) = any_cons leg legs h in
      (leg-IsCovered leg bounded l.0 now, legs-IsCovered legs bounded l.1 later)
