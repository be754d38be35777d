-- ===== src/Chain/Transfers/Legs.antt =====
-- The two loops of `apply_transfer`: covered legs on distinct accounts, and new hollow accounts.
use hanvil.Prelude.{
  ℕ, ◌+◌, ◌≤◌, ◌<◌, ◌≡◌, refl, ◌∙◌, ap, ℤ, pos_part, neg_part, true, none, some, List, [], ◌∷◌, map,
  All, arith, is_some, length,
}
use hanvil.Word.{u64_mod, unsigned_abs}
use hanvil.Maps.BTreeMap
use hanvil.Units.{Address}
use hanvil.Time.{Timestamp}
use hanvil.Accounts.{EntityId, Account}
use hanvil.Chain.{ChainState, first_user_id, allocate_id, insert_account}
use hanvil.Chain.Supply.{supply}
use hanvil.Chain.Supply.Opening.{
  opened, opened-supply, opened-fresh, opened-is_some, opened_next_id,
}
use hanvil.Chain.Transfers.{hollow, adjust, apply_legs, create_hollow}
use hanvil.Chain.Transfers.Moves.{get-adjust, adjust-supply, adjust-is_some}
use hanvil.Chain.Transfers.Distinct.{Absent, Distinct}

abbrev pub credits {ℓ} : {A : Type ℓ} → List (A × ℤ) → ℕ
credits [] = 0
credits ((a, amount) ∷ rest) = pos_part amount + credits rest

abbrev pub debits {ℓ} : {A : Type ℓ} → List (A × ℤ) → ℕ
debits [] = 0
debits ((a, amount) ∷ rest) = neg_part amount + debits rest

abbrev pub ids_of : List (EntityId × ℤ) → List EntityId
ids_of = map λ p. p.0

module _ {Db : Type 0} where
  -- A leg on an account that is there, covers its debit and has room for its credit.
  pub record IsCovered (s : ChainState Db) (leg : EntityId × ℤ) : Type 0 where
    pub holder : Account
    pub found : BTreeMap.get leg.0 s.accounts ≡ some holder
    pub covers : neg_part leg.1 ≤ holder.balance
    pub fits : holder.balance + pos_part leg.1 < u64_mod

  adjust-IsCovered :
      (i : EntityId) (amount : ℤ) (s : ChainState Db)
      → IsCovered s (i, amount)
      → (legs : List (EntityId × ℤ)) → Absent i (ids_of legs)
      → All (IsCovered s) legs
      → All (IsCovered (adjust i amount s)) legs
  adjust-IsCovered i amount s c [] n h = tt
  adjust-IsCovered i amount s c ((j, b) ∷ legs) n h = (
    record {
      holder = h.0.holder;
      found = ground (arith, get-adjust i amount s c.holder j c.found, h.0.found);
      covers = h.0.covers;
      fits = h.0.fits;
    },
    adjust-IsCovered i amount s c legs n.1 h.1,
  )

  -- Covered legs on distinct accounts change the supply by what the list adds up to.
  pub apply_legs-supply :
      (legs : List (EntityId × ℤ)) (s : ChainState Db)
      → Distinct (ids_of legs)
      → All (IsCovered s) legs
      → supply (apply_legs legs s) + debits legs ≡ supply s + credits legs
  unfolding apply_legs
  apply_legs-supply [] s d h = refl
  apply_legs-supply ((i, amount) ∷ legs) s d h = omega (
    arith,
    apply_legs-supply legs (adjust i amount s) d.1 (adjust-IsCovered i amount s h.0 legs d.0 h.1),
    adjust-supply i amount s h.0.holder h.0.found h.0.covers h.0.fits,
  )

  pub apply_legs-is_some :
      (legs : List (EntityId × ℤ)) (s : ChainState Db) (j : EntityId)
      → is_some (BTreeMap.get j (apply_legs legs s).accounts) ≡ is_some (BTreeMap.get j s.accounts)
  unfolding apply_legs
  apply_legs-is_some [] s j = refl
  apply_legs-is_some ((i, amount) ∷ legs) s j =
      apply_legs-is_some legs (adjust i amount s) j ∙ adjust-is_some i amount s j

  adjust_next_id : (i : EntityId) (a : ℤ) (s : ChainState Db) → (adjust i a s).next_id ≡ s.next_id
  unfolding adjust
  adjust_next_id i a s = ground arith

  pub apply_legs_next_id :
      (legs : List (EntityId × ℤ)) (s : ChainState Db) → (apply_legs legs s).next_id ≡ s.next_id
  unfolding apply_legs
  apply_legs_next_id [] s = refl
  apply_legs_next_id ((i, amount) ∷ legs) s =
      apply_legs_next_id legs (adjust i amount s) ∙ adjust_next_id i amount s

  create_hollow_step :
      (at : Timestamp) (address : Address) (amount : ℤ) (rest : List (Address × ℤ))
      (s : ChainState Db)
      → (create_hollow at ((address, amount) ∷ rest) s).0
        ≡ (create_hollow at rest (opened (hollow s.next_id address (unsigned_abs amount) at) s)).0
  unfolding create_hollow insert_account allocate_id
  create_hollow_step at address amount rest s = refl

  -- New hollow accounts add what they are given, and leave the ids fresh.
  pub record Created (at : Timestamp) (created : List (Address × ℤ)) (s : ChainState Db)
      : Type 0 where
    pub added :
        supply (create_hollow at created s).0 ≡ supply s + (credits created + debits created)
    pub fresh :
        (i : ℕ)
        → (create_hollow at created s).0.next_id ≤ i
        → BTreeMap.get i (create_hollow at created s).0.accounts ≡ none
    pub user_ids : first_user_id ≤ (create_hollow at created s).0.next_id
    pub stay :
        (j : ℕ)
        → is_some (BTreeMap.get j s.accounts) ≡ true
        → is_some (BTreeMap.get j (create_hollow at created s).0.accounts) ≡ true

  created_step :
      (at : Timestamp) (address : Address) (amount : ℤ) (rest : List (Address × ℤ))
      (s : ChainState Db)
      → first_user_id ≤ s.next_id
      → s.next_id + 1 < u64_mod
      → ((i : ℕ) → s.next_id ≤ i → BTreeMap.get i s.accounts ≡ none)
      → Created at rest (opened (hollow s.next_id address (unsigned_abs amount) at) s)
      → Created at ((address, amount) ∷ rest) s
  created_step at address amount rest s user room fresh ih = record {
    added = ap supply step ∙ omega (arith, ih.added, opened-supply a s refl user room fresh);
    fresh = rw step ih.fresh;
    user_ids = rw step ih.user_ids;
    stay = λ j h. rw step (ih.stay j (opened-is_some a s j h));
  }
    where
      a : Account
      a = hollow s.next_id address (unsigned_abs amount) at

      step :
          (create_hollow at ((address, amount) ∷ rest) s).0 ≡ (create_hollow at rest (opened a s)).0
      step = create_hollow_step at address amount rest s

  create_hollow_none : (at : Timestamp) (s : ChainState Db) → (create_hollow at [] s).0 ≡ s
  unfolding create_hollow
  create_hollow_none at s = refl

  pub create_hollow-Created :
      (at : Timestamp) (created : List (Address × ℤ)) (s : ChainState Db)
      → first_user_id ≤ s.next_id
      → s.next_id + length created < u64_mod
      → ((i : ℕ) → s.next_id ≤ i → BTreeMap.get i s.accounts ≡ none)
      → Created at created s
  create_hollow-Created at [] s user room fresh = record {
    added = ap supply (create_hollow_none at s) ∙ omega arith;
    fresh = rw (create_hollow_none at s) fresh;
    user_ids = rw (create_hollow_none at s) user;
    stay = rw (create_hollow_none at s) (λ j h. h);
  }
  create_hollow-Created at ((address, amount) ∷ rest) s user room fresh =
      let a = hollow s.next_id address (unsigned_abs amount) at in
      let next = opened_next_id a s refl user (omega arith) in
      created_step at address amount rest s user (omega arith) fresh (
        create_hollow-Created at rest (opened a s) (omega (arith, next)) (omega (arith, next))
          (opened-fresh a s refl user (omega arith) fresh))
