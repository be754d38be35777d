-- ===== src/Chain/Transfers.antt =====
-- Moving tinybar, of src/state/mod.rs: `adjust`, `move_tinybar`, `aggregate` and the HBAR list of
-- `cryptoTransfer`.
pub mod Moves
pub mod Distinct
pub mod Legs
pub mod Resolution
pub mod Conservation
use hanvil.Prelude.{
  ℕ, ℤ, pos, neg_part, pos_part, ◌+ℤ◌, Bool, false, ◌&&◌, ◌||◌, none, some, List, [], ◌∷◌, ◌++◌,
  map, ltb, leb, ◌==◌, if◌then◌else◌, any,
}
use hanvil.Prelude.Result.{Result, ok, err, ◌>>=◌}
use hanvil.Prelude.Eq.{nat_eq}
use hanvil.Word.{to_i64, neg_i64, add_i64, unsigned_abs, saturating_add, saturating_sub}
use hanvil.Maps.BTreeMap.{BTreeMap}
use hanvil.Maps.BTreeMap
use hanvil.Maps.HashMap
use hanvil.Units.{Tinybar, Address}
use hanvil.Time.{Timestamp}
use hanvil.Accounts.{EntityId, Account}
use hanvil.Records.{Transfer, AccountRef, Record}
use hanvil.Records.Responses.{Status}
use hanvil.Chain.{ChainState, insert_account, allocate_id, balance_of, is_live}

abbrev pub is_negative : ℤ → Bool
is_negative a = ltb 0 (neg_part a)

-- The balance after a signed amount.
unfoldable pub adjusted : ℕ → ℤ → ℕ
unfolding saturating_add
adjusted balance amount =
    if is_negative amount
    then saturating_sub balance (unsigned_abs amount)
    else saturating_add balance (unsigned_abs amount)

abbrev pub leg : EntityId → ℤ → Transfer
leg i a = record { account = i; amount = a }

-- A hollow account: one that a credit to an unknown address creates.
abbrev pub hollow : EntityId → Address → Tinybar → Timestamp → Account
hollow i address balance at = record {
  id = i;
  key = none;
  alias = some address;
  balance = balance;
  nonce = 0;
  deleted = false;
  memo = [];
  created_at = at;
  private_key_hex = none;
}

unfoldable pub sum_amounts : List (AccountRef × ℤ) → ℤ
sum_amounts [] = pos 0
sum_amounts ((a, amount) ∷ rest) = amount +ℤ sum_amounts rest

-- `sort_unstable`: on numbers every sort has the same result.
unfoldable pub insert_sorted : ℕ → List ℕ → List ℕ
insert_sorted x [] = x ∷ []
insert_sorted x (y ∷ ys) = if leb x y then x ∷ y ∷ ys else y ∷ insert_sorted x ys

unfoldable pub sort : List ℕ → List ℕ
unfolding insert_sorted
sort [] = []
sort (x ∷ xs) = insert_sorted x (sort xs)

-- `windows(2).any(|pair| pair[0] == pair[1])`
unfoldable pub has_equal_neighbours : List ℕ → Bool
has_equal_neighbours [] = false
has_equal_neighbours (x ∷ []) = false
has_equal_neighbours (x ∷ y ∷ ys) = x == y || has_equal_neighbours (y ∷ ys)

unfoldable pub add_total : BTreeMap ℤ → Transfer → BTreeMap ℤ
add_total totals t =
    BTreeMap.insert t.account
      (elim (BTreeMap.get t.account totals) [
        | none ↦ add_i64 (pos 0) t.amount
        | some sum ↦ add_i64 sum t.amount
      ])
      totals

unfoldable pub totals_of : BTreeMap ℤ → List Transfer → BTreeMap ℤ
unfolding add_total
totals_of totals [] = totals
totals_of totals (t ∷ ts) = totals_of (add_total totals t) ts

-- One entry per account, in id order.
unfoldable pub aggregate : List Transfer → List Transfer
unfolding totals_of
aggregate transfers = map (λ (p : EntityId × ℤ). leg p.0 p.1) (totals_of [] transfers)

-- The resolved legs, and the credits to addresses that are not known yet.
abbrev pub Resolved : Type 0
Resolved = List (EntityId × ℤ) × List (Address × ℤ)

module _ {Db : Type 0} where
  -- Add a signed amount to an account that is known to exist.
  unfoldable pub adjust : EntityId → ℤ → ChainState Db → ChainState Db
  unfolding adjusted
  adjust i amount s = elim (BTreeMap.get i s.accounts) [
    | none ↦ s
    | some a ↦ record s {
      accounts = BTreeMap.insert i (record a { balance = adjusted a.balance amount }) s.accounts;
    }
  ]

  unfoldable pub move_tinybar :
      EntityId → EntityId → Tinybar → ChainState Db → List Transfer → ChainState Db × List Transfer
  unfolding adjust to_i64 neg_i64
  move_tinybar from to amount s transfers =
      if amount == 0
      then (s, transfers)
      else (let signed = to_i64 amount in
          (
            adjust to signed (adjust from (neg_i64 signed) s),
            transfers ++ leg from (neg_i64 signed) ∷ leg to signed ∷ [],
          ))

  -- An id that is not live is deleted, or is no account.
  unfoldable pub resolve_id : ChainState Db → EntityId → Result Status EntityId
  unfolding is_live
  resolve_id s i =
      if is_live s i
      then ok i
      else if BTreeMap.contains_key i s.accounts
      then err Status.account_deleted
      else err Status.invalid_account_id

  unfoldable pub resolve_one : ChainState Db → AccountRef × ℤ → Resolved → Result Status Resolved
  unfolding resolve_id is_live
  resolve_one s (AccountRef.id i, amount) (resolved, created) = do
    j ← resolve_id s i
    ok (resolved ++ (j, amount) ∷ [], created)
  resolve_one s (AccountRef.alias address, amount) (resolved, created) =
      elim (HashMap.get address s.by_evm) [
        | some i ↦
            if is_live s i
            then ok (resolved ++ (i, amount) ∷ [], created)
            else err Status.account_deleted
        | none ↦
            if ltb 0 (pos_part amount)
            then (if any (λ (c : Address × ℤ). c.0 == address) created
                then err Status.account_repeated_in_account_amounts
                else ok (resolved, created ++ (address, amount) ∷ []))
            else err Status.invalid_account_id
      ]

  unfoldable pub resolve : ChainState Db → List (AccountRef × ℤ) → Resolved → Result Status Resolved
  unfolding resolve_one
  resolve s [] acc = ok acc
  resolve s (x ∷ xs) acc = do acc' ← resolve_one s x acc; resolve s xs acc'

  unfoldable pub is_unfunded : ChainState Db → EntityId × ℤ → Bool
  unfolding balance_of
  is_unfunded s (i, amount) = is_negative amount && ltb (balance_of s i) (unsigned_abs amount)

  unfoldable pub apply_legs : List (EntityId × ℤ) → ChainState Db → ChainState Db
  unfolding adjust
  apply_legs [] s = s
  apply_legs ((i, amount) ∷ legs) s = apply_legs legs (adjust i amount s)

  -- One hollow account for each new address, with the transfer that it leaves.
  unfoldable pub create_hollow :
      Timestamp → List (Address × ℤ) → ChainState Db → ChainState Db × List Transfer
  unfolding allocate_id insert_account
  create_hollow at [] s = (s, [])
  create_hollow at ((address, amount) ∷ rest) s =
      let (i, s1) = allocate_id s in
      let (s2, legs) =
        create_hollow at rest (insert_account (hollow i address (unsigned_abs amount) at) s1) in
      (s2, leg i amount ∷ legs)

  -- No account twice, every debit funded.
  unfoldable pub check_resolved : ChainState Db → Resolved → Result Status Resolved
  unfolding sort has_equal_neighbours is_unfunded
  check_resolved s (resolved, created) =
      if has_equal_neighbours (sort (map (λ (p : EntityId × ℤ). p.0) resolved))
      then err Status.account_repeated_in_account_amounts
      else if any (is_unfunded s) resolved
      then err Status.insufficient_account_balance
      else ok (resolved, created)

  -- Everything is checked before anything moves.
  unfoldable pub check_transfer : ChainState Db → List (AccountRef × ℤ) → Result Status Resolved
  unfolding sum_amounts resolve check_resolved
  check_transfer s amounts =
      if ltb 0 (unsigned_abs (sum_amounts amounts))
      then err Status.invalid_account_amounts
      else do parts ← resolve s amounts ([], []); check_resolved s parts

  abbrev pub settle_transfer :
      ChainState Db → Record → Timestamp → Resolved → ChainState Db × Record
  settle_transfer s r consensus (resolved, created) =
      let (s', legs) = create_hollow consensus created (apply_legs resolved s) in
      (
        s',
        record r {
          transfers = r.transfers ++ (map (λ (p : EntityId × ℤ). leg p.0 p.1) resolved ++ legs);
        },
      )

  unfoldable pub apply_transfer :
      List (AccountRef × ℤ)
      → ChainState Db
      → Record
      → Timestamp
      → Result Status (ChainState Db × Record)
  unfolding check_transfer apply_legs create_hollow
  apply_transfer amounts s r consensus = do
    parts ← check_transfer s amounts
    ok (settle_transfer s r consensus parts)
