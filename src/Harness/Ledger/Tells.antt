-- ===== src/Harness/Ledger/Tells.antt =====
-- src/harness/ledger.rs: what the rows of a ledger tell of the chain, and their order.
use mathlib.Core.List.{Perm}
use mathlib.Core.List.Perm
use hanvil.Prelude.{
  ℕ, ◌+◌, ◌*◌, ◌≤◌, ◌≡◌, ◌≢◌, refl, subst, arith, Bool, true, false, Option, none, some, codes,
  List, [], ◌∷◌, map, Bytes, length, filter_map, leb, if◌then◌else◌, Bool-cases, inl, inr,
}
use hanvil.Prelude.Result.{Result, ok, err, ◌>>=◌, >>=-eq-ok, ok_eq}
use hanvil.Word.{saturating_mul}
use hanvil.Units.{Address}
use hanvil.Accounts.{entity_text}
use hanvil.Blocks.{B256, TxRecord, be_bytes}
use hanvil.Records.{Record, Rejection, kind_text, kind_name, reason}
use hanvil.Records.Responses.{Status, code, name}
use hanvil.Chain.{ChainState, transaction}
use hanvil.Text.{has}
use hanvil.Harness.Ledger.{
  Row, Panic, success, failed, rejected, is_success_status, record_row, insert_row, sort_rows,
  instant, evm_payer, rejected_payer, evm_row, mined_row, evm_failure, evm_rows, rejection_row,
}

-- One row for each element, in their order.
abbrev pub AreRows : {A : Type 0} → (A → Row → Type 0) → List A → List Row → Type 0
AreRows Tells [] [] = Unit {0}
AreRows Tells [] (row ∷ rows) = ⊥
AreRows Tells (x ∷ xs) [] = ⊥
AreRows Tells (x ∷ xs) (row ∷ rows) = Tells x row × AreRows Tells xs rows

pub length-AreRows :
    {A : Type 0} (Tells : A → Row → Type 0) (xs : List A) (rows : List Row)
    → AreRows Tells xs rows
    → length rows ≡ length xs
length-AreRows Tells [] [] h = refl
length-AreRows Tells [] (row ∷ rows) h = absurd h
length-AreRows Tells (x ∷ xs) [] h = absurd h
length-AreRows Tells (x ∷ xs) (row ∷ rows) h = omega (arith, length-AreRows Tells xs rows h.1)

-- A row that tells of a HAPI record: it stands at the nanoseconds of its consensus timestamp.
pub record IsOfRecord (r : Record) (row : Row) : Type 0 where
  pub key : row.0 ≡ r.consensus_timestamp.secs * 1_000_000_000 + r.consensus_timestamp.nanos
  pub kind : row.1.kind ≡ kind_text r.kind
  pub payer : row.1.payer ≡ entity_text r.id.payer
  pub succeeded : r.status ≡ Status.success → row.1.outcome ≡ success
  pub went_wrong : r.status ≢ Status.success → row.1.outcome ≡ failed
  pub result : row.1.result ≡ codes (name r.status)
  pub code : row.1.code ≡ some (code r.status)
  pub fee : row.1.fee_tinybar ≡ r.charged_fee

is_success_status→eq : (status : Status) → is_success_status status ≡ true → status ≡ Status.success
is_success_status→eq Status.success h = refl
is_success_status→eq _ h = cc

record_row-IsOfRecord : (r : Record) → IsOfRecord r (record_row r)
unfolding record_row instant
record_row-IsOfRecord r = record {
  key = refl;
  kind = refl;
  payer = refl;
  succeeded = λ well. rw well refl;
  went_wrong = λ wrong. elim (Bool-cases (is_success_status r.status)) [
    | inl well ↦ absurd (wrong (is_success_status→eq r.status well))
    | inr ill ↦ rw ill refl
  ];
  result = refl;
  code = refl;
  fee = refl;
}

pub record_row-AreRows : (rs : List Record) → AreRows IsOfRecord rs (map record_row rs)
record_row-AreRows [] = tt
record_row-AreRows (r ∷ rs) = (record_row-IsOfRecord r, record_row-AreRows rs)

-- Keys do not fall, from `key` on.
abbrev pub RisesFrom : ℕ → List Row → Type 0
RisesFrom key [] = Unit {0}
RisesFrom key (row ∷ rows) = (key ≤ row.0) × RisesFrom (row.0) rows

insert_row-RisesFrom :
    (key : ℕ) (x : Row) (rows : List Row)
    → key ≤ x.0
    → RisesFrom key rows
    → RisesFrom key (insert_row x rows)
unfolding insert_row
insert_row-RisesFrom key x [] h r = (h, tt)
insert_row-RisesFrom key x (y ∷ ys) h r = ground (arith, insert_row-RisesFrom y.0 x ys)

pub sort_rows-RisesFrom : (rows : List Row) → RisesFrom 0 (sort_rows rows)
unfolding sort_rows
sort_rows-RisesFrom [] = tt
sort_rows-RisesFrom (x ∷ xs) =
    insert_row-RisesFrom 0 x (sort_rows xs) (omega arith) (sort_rows-RisesFrom xs)

insert_row_perm : (x : Row) (rows : List Row) → Perm (insert_row x rows) (x ∷ rows)
unfolding insert_row
insert_row_perm x [] = Perm.rfl
insert_row_perm x (y ∷ ys) = elim (Bool-cases (leb x.0 y.0)) [
  | inl before ↦ rw (before, insert_row) Perm.rfl
  | inr behind ↦
      rw (behind, insert_row) (Perm.trans (Perm.cons y (insert_row_perm x ys)) (Perm.swap x y ys))
]

pub sort_rows_perm : (rows : List Row) → Perm (sort_rows rows) rows
unfolding sort_rows
sort_rows_perm [] = Perm.rfl
sort_rows_perm (x ∷ xs) =
    Perm.trans (insert_row_perm x (sort_rows xs)) (Perm.cons x (sort_rows_perm xs))

module _ {Db : Type 0} (from_utf8_lossy : Bytes → Bytes) (show_address : Address → Bytes)
    (s : ChainState Db) where
  -- A row that tells of a refusal. Its payer is the account it was refused to, else the address it
  -- was sent from or that address's account, else it is unknown.
  pub record IsOfRefusal (r : Rejection) (row : Row) : Type 0 where
    pub key : row.0 ≡ r.at.secs * 1_000_000_000 + r.at.nanos
    pub kind : row.1.kind ≡ kind_name r
    pub payer : row.1.payer ≡ (elim r.payer [
      | some payer ↦ entity_text payer
      | none ↦ elim r.from [
        | some address ↦ evm_payer from_utf8_lossy show_address s address
        | none ↦ codes "unknown"
      ]
    ])
    pub outcome : row.1.outcome ≡ rejected
    pub result :
        row.1.result ≡ (elim r.status [ none ↦ r.message | some status ↦ codes (name status) ])
    pub code : row.1.code ≡ (elim r.status [ none ↦ none | some status ↦ some (code status) ])
    pub free : row.1.fee_tinybar ≡ 0

  rejection_row-IsOfRefusal :
      (r : Rejection) → IsOfRefusal r (rejection_row from_utf8_lossy show_address s r)
  unfolding rejection_row instant rejected_payer reason
  rejection_row-IsOfRefusal r = record {
    key = refl;
    kind = refl;
    payer = refl;
    outcome = refl;
    result = refl;
    code = refl;
    free = refl;
  }

  pub rejection_row-AreRows :
      (rs : List Rejection)
      → AreRows IsOfRefusal rs (map (rejection_row from_utf8_lossy show_address s) rs)
  rejection_row-AreRows [] = tt
  rejection_row-AreRows (r ∷ rs) = (rejection_row-IsOfRefusal r, rejection_row-AreRows rs)

  -- A row that tells of an Ethereum transaction that did not come over HAPI.
  pub record IsOfMined (tx : TxRecord) (row : Row) : Type 0 where
    pub key : row.0 ≡ tx.consensus_timestamp.secs * 1_000_000_000 + tx.consensus_timestamp.nanos
    pub kind : row.1.kind ≡ codes "ETHEREUMTRANSACTION"
    pub payer : row.1.payer ≡ evm_payer from_utf8_lossy show_address s tx.from
    pub outcome : row.1.outcome ≡ (if tx.receipt.success then success else failed)
    pub succeeded : tx.receipt.success ≡ true → row.1.result ≡ codes "SUCCESS"
    pub went_wrong : tx.receipt.success ≡ false → evm_failure from_utf8_lossy tx ≡ ok row.1.result
    pub fee : row.1.fee_tinybar ≡ saturating_mul tx.receipt.gas_used tx.receipt.effective_gas_price

  mined_row-IsOfMined :
      (tx : TxRecord) (b : Bool) (m : Result Panic Bytes) (row : Row)
      → tx.receipt.success ≡ b
      → evm_failure from_utf8_lossy tx ≡ m
      → (let made : Result Panic Row =
            if b
            then ok (evm_row from_utf8_lossy show_address s tx success (codes "SUCCESS"))
            else m >>= (λ result. ok (evm_row from_utf8_lossy show_address s tx failed result)) in
          made ≡ ok row)
      → IsOfMined tx row
  unfolding instant
  mined_row-IsOfMined tx true m row how e h = subst (IsOfMined tx) (ok_eq h) (record {
    key = refl;
    kind = refl;
    payer = refl;
    outcome = rw how refl;
    succeeded = λ same. refl;
    went_wrong = λ other. cc;
    fee = refl;
  })
  mined_row-IsOfMined tx false (ok text) row how e h = subst (IsOfMined tx) (ok_eq h) (record {
    key = refl;
    kind = refl;
    payer = refl;
    outcome = rw how refl;
    succeeded = λ other. cc;
    went_wrong = λ same. e;
    fee = refl;
  })
  mined_row-IsOfMined tx false (err e') row how e h = cc

  -- The transactions of some hashes, less those that came over HAPI.
  abbrev pub mined_from : List Bytes → List B256 → List TxRecord
  mined_from over hashes =
      filter_map (λ hash. if has (be_bytes 32 hash) over then none else transaction s hash) hashes

  evm_step-AreRows :
      (later : List TxRecord) (b : Bool) (o : Option TxRecord) (others : Result Panic (List Row))
      (rows : List Row)
      → ((rest : List Row) → others ≡ ok rest → AreRows IsOfMined later rest)
      → (let made : Result Panic (List Row) = if b then others else elim o [
        | none ↦ others
        | some tx ↦
            mined_row from_utf8_lossy show_address s tx
            >>= (λ row. others >>= (λ rest. ok (row ∷ rest)))
      ] in
          made ≡ ok rows)
      → (let mined : Option TxRecord = if b then none else o in
          AreRows IsOfMined (elim mined [ none ↦ later | some tx ↦ tx ∷ later ]) rows)
  evm_step-AreRows later true o others rows c h = c rows h
  evm_step-AreRows later false none others rows c h = c rows h
  evm_step-AreRows later false (some tx) others rows c h =
      let (row, e, h1) = >>=-eq-ok (mined_row from_utf8_lossy show_address s tx) _ h in
      let (rest, e', h2) = >>=-eq-ok others _ h1 in
      subst (AreRows IsOfMined (tx ∷ later)) (ok_eq h2) (
        mined_row-IsOfMined tx tx.receipt.success (evm_failure from_utf8_lossy tx) row refl refl e,
        c rest e',
      )

  pub evm_rows-AreRows :
      (over : List Bytes) (hashes : List B256) (rows : List Row)
      → evm_rows from_utf8_lossy show_address s over hashes ≡ ok rows
      → AreRows IsOfMined (mined_from over hashes) rows
  unfolding evm_rows
  evm_rows-AreRows over [] rows h = subst (AreRows IsOfMined []) (ok_eq h) tt
  evm_rows-AreRows over (hash ∷ hashes) rows h =
      evm_step-AreRows (mined_from over hashes) (has (be_bytes 32 hash) over) (transaction s hash)
        (evm_rows from_utf8_lossy show_address s over hashes) rows
        (λ rest e. evm_rows-AreRows over hashes rest e) h
