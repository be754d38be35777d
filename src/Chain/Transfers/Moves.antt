-- ===== src/Chain/Transfers/Moves.antt =====
-- `adjust` and `move_tinybar` on the accounts: what they change, and the supply.
use hanvil.Prelude.{
  ℕ, zero, suc, ◌+◌, ◌-◌, ◌≤◌, ◌<◌, ◌≡◌, refl, ℤ, pos, negsuc, pos_part, neg_part, true, none, some,
  List, arith, ◌==◌, if◌then◌else◌, is_some, Option-cases, inl, inr, ◌∙◌, ap,
}
use hanvil.Word.{u64_mod, i64_mod, to_i64, neg_i64, saturating_add}
use hanvil.Maps.BTreeMap
use hanvil.Maps.Totals.{total-insert_old, get-le-total}
use hanvil.Accounts.{EntityId, Account}
use hanvil.Units.{Tinybar}
use hanvil.Records.{Transfer}
use hanvil.Chain.{ChainState}
use hanvil.Chain.Supply.{supply}
use hanvil.Chain.Transfers.{adjusted, adjust, move_tinybar}

-- Where a debit is covered and a credit fits a u64, nothing saturates.
pub adjusted_parts :
    (b : ℕ) (a : ℤ)
    → neg_part a ≤ b
    → b + pos_part a < u64_mod
    → adjusted b a + neg_part a ≡ b + pos_part a
unfolding adjusted saturating_add
adjusted_parts b (pos n) h k = ground arith
adjusted_parts b (negsuc n) h k = ground arith

module _ {Db : Type 0} where
  pub adjust_accounts :
      (i : EntityId) (amount : ℤ) (s : ChainState Db) (a : Account)
      → BTreeMap.get i s.accounts ≡ some a
      → (adjust i amount s).accounts
        ≡ BTreeMap.insert i (record a { balance = adjusted a.balance amount }) s.accounts
  unfolding adjust
  adjust_accounts i amount s a h = rw (h, adjust)

  pub adjust_missing :
      (i : EntityId) (amount : ℤ) (s : ChainState Db)
      → BTreeMap.get i s.accounts ≡ none
      → adjust i amount s ≡ s
  unfolding adjust
  adjust_missing i amount s h = rw (h, adjust)

  pub get-adjust :
      (i : EntityId) (amount : ℤ) (s : ChainState Db) (a : Account) (j : EntityId)
      → BTreeMap.get i s.accounts ≡ some a
      → BTreeMap.get j (adjust i amount s).accounts ≡ (
          if i == j
          then some (record a { balance = adjusted a.balance amount })
          else BTreeMap.get j s.accounts)
  get-adjust i amount s a j h =
      rw (adjust_accounts i amount s a h)
        (BTreeMap.get-insert i (record a { balance = adjusted a.balance amount }) s.accounts j)

  pub adjust-supply :
      (i : EntityId) (amount : ℤ) (s : ChainState Db) (a : Account)
      → BTreeMap.get i s.accounts ≡ some a
      → neg_part amount ≤ a.balance
      → a.balance + pos_part amount < u64_mod
      → supply (adjust i amount s) + neg_part amount ≡ supply s + pos_part amount
  adjust-supply i amount s a h funded fits = rw (adjust_accounts i amount s a h) (
      omega (
        arith,
        adjusted_parts a.balance amount funded fits,
        total-insert_old (λ b. b.balance) i (record a { balance = adjusted a.balance amount }) a
            s.accounts h,
      ))

  -- The accounts that exist, and who they are, stay the same.
  pub adjust-is_some :
      (i : EntityId) (amount : ℤ) (s : ChainState Db) (j : EntityId)
      → is_some (BTreeMap.get j (adjust i amount s).accounts) ≡ is_some (BTreeMap.get j s.accounts)
  adjust-is_some i amount s j = elim (Option-cases (BTreeMap.get i s.accounts)) [
    | inl e ↦ rw (adjust_missing i amount s e) refl
    | inr (a, e) ↦ ground (arith, get-adjust i amount s a j e, e)
  ]

  pub move_tinybar_state :
      (from to : EntityId) (amount : Tinybar) (s : ChainState Db) (legs : List Transfer)
      → 0 < amount
      → amount < i64_mod
      → (move_tinybar from to amount s legs).0
        ≡ adjust to (pos amount) (adjust from (negsuc (amount - 1)) s)
  unfolding move_tinybar to_i64 neg_i64
  move_tinybar_state from to amount s legs h k = ground arith

  move_tinybar_zero :
      (from to : EntityId) (s : ChainState Db) (legs : List Transfer)
      → (move_tinybar from to 0 s legs).0 ≡ s
  unfolding move_tinybar
  move_tinybar_zero from to s legs = refl

  -- A covered move between accounts that exist keeps the supply, also from an account to itself.
  pub move_tinybar-supply :
      (from to : EntityId) (amount : Tinybar) (s : ChainState Db) (legs : List Transfer)
      (a : Account)
      → BTreeMap.get from s.accounts ≡ some a
      → amount ≤ a.balance
      → is_some (BTreeMap.get to s.accounts) ≡ true
      → supply s < i64_mod
      → supply (move_tinybar from to amount s legs).0 ≡ supply s
  move_tinybar-supply from to zero s legs a h covered target bounded =
      ap supply (move_tinybar_zero from to s legs)
  move_tinybar-supply from to (suc n) s legs a h covered target bounded =
      elim (Option-cases (BTreeMap.get to s1.accounts)) [
        | inl e ↦ cc (adjust-is_some from (negsuc n) s to, e)
        | inr (b, e) ↦
            moved
            ∙ omega (
              arith,
              debit,
              get-le-total (λ c. c.balance) to b s1.accounts e,
              adjust-supply to (pos (suc n)) s1 b e (omega arith),
            )
      ]
    where
      s1 : ChainState Db
      s1 = adjust from (negsuc n) s

      held_by_from : a.balance ≤ supply s
      held_by_from = get-le-total (λ c. c.balance) from a s.accounts h

      debit : supply s1 + suc n ≡ supply s + 0
      debit = adjust-supply from (negsuc n) s a h covered (omega (arith, held_by_from))

      moved : supply (move_tinybar from to (suc n) s legs).0 ≡ supply (adjust to (pos (suc n)) s1)
      moved = ap supply (
          move_tinybar_state from to (suc n) s legs (omega arith) (omega (arith, held_by_from))
          ∙ ap (λ m. adjust to (pos (suc n)) (adjust from (negsuc m) s)) (omega arith))

  adjust_ids : (i : EntityId) (a : ℤ) (s : ChainState Db) → (adjust i a s).next_id ≡ s.next_id
  unfolding adjust
  adjust_ids i a s = ground arith

  pub move_tinybar_ids :
      (from to : EntityId) (amount : Tinybar) (s : ChainState Db) (legs : List Transfer)
      → (move_tinybar from to amount s legs).0.next_id ≡ s.next_id
  unfolding move_tinybar
  move_tinybar_ids from to amount s legs = ground (
    arith,
    adjust_ids to (to_i64 amount) (adjust from (neg_i64 (to_i64 amount)) s),
    adjust_ids from (neg_i64 (to_i64 amount)) s,
  )

  pub move_tinybar-is_some :
      (from to : EntityId) (amount : Tinybar) (s : ChainState Db) (legs : List Transfer)
      (j : EntityId)
      → is_some (BTreeMap.get j (move_tinybar from to amount s legs).0.accounts)
        ≡ is_some (BTreeMap.get j s.accounts)
  unfolding move_tinybar
  move_tinybar-is_some from to amount s legs j = ground (
    arith,
    adjust-is_some to (to_i64 amount) (adjust from (neg_i64 (to_i64 amount)) s) j,
    adjust-is_some from (neg_i64 (to_i64 amount)) s j,
  )
