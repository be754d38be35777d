-- ===== src/Harness/Ledger.antt =====
-- src/harness/ledger.rs: what an attempt did to the chain.
pub mod Counts
pub mod Repeats
pub mod Tells
use hanvil.Prelude.{
  ℕ, ◌+◌, ◌-◌, ◌*◌, ◌/◌, ◌%◌, ◌==◌, ℤ, pos, Bool, true, false, not, Option, none, some, List, [],
  ◌∷◌, ◌++◌, map, Bytes, codes, keep, any, flat_map, length, drop, ltb, leb, if◌then◌else◌,
}
use hanvil.Prelude.Result.{Result, ok, err, ◌>>=◌}
use hanvil.Prelude.Eq.{nat_eq}
use hanvil.Maps.HashMap
use hanvil.Word.{u64_mod, add_u64, to_i64, saturating_mul, saturating_sub, decimal, hex}
use hanvil.Units.{Address, Tinybar}
use hanvil.Time.{Timestamp}
use hanvil.Accounts.{EntityId, Account, entity_text}
use hanvil.Blocks.{B256, Block, TxRecord, Receipt, be_bytes}
use hanvil.Records.{Record, Rejection, kind_text, kind_name, reason}
use hanvil.Records.Responses.{Status, code, name}
use hanvil.Evm.Reverts.{Reason, no_reason, panics, text, panic_code, revert_reason}
use hanvil.Chain.{ChainState, account_by_evm, transaction}
use hanvil.Chain.Refusals.{rejections_seen}
use hanvil.Text.{has}

-- Where the chain stood when an attempt began.
pub record Mark : Type 0 where
  pub records : ℕ
  pub blocks : ℕ
  pub rejections : ℕ

pub data Outcome : Type 0 where
  success failed rejected : Outcome

pub record Entry : Type 0 where
  pub index : ℕ
  pub kind : Bytes
  pub payer : Bytes
  pub outcome : Outcome
  pub result : Bytes
  pub code : Option ℕ
  pub entity : Option Bytes
  pub at_millis : ℤ
  pub fee_tinybar : ℕ

pub record Summary : Type 0 where
  pub transactions : ℕ
  pub succeeded : ℕ
  pub failed : ℕ
  pub rejected : ℕ

-- `to::<usize>()` on a length that does not fit.
pub data Panic : Type 0 where
  length_too_large : Panic

-- The key that the rows are sorted by, and the entry.
abbrev pub Row : Type 0
Row = ℕ × Entry

unfoldable pub instant : Timestamp → ℕ
instant t = t.secs * 1_000_000_000 + t.nanos

unfoldable pub hapi_entity : Record → Option Bytes
unfolding entity_text decimal
hapi_entity r = elim r.created_topic [
  | some topic ↦ some (entity_text topic)
  | none ↦ elim r.created_account [
    | some account ↦ some (entity_text account)
    | none ↦
        if ltb 0 r.topic_sequence_number
        then some (codes "seq " ++ decimal r.topic_sequence_number)
        else none
  ]
]

abbrev pub is_success_status : Status → Bool
is_success_status s = elim s [ Status.success ↦ true | _ ↦ false ]

unfoldable pub record_row : Record → Row
unfolding instant entity_text hapi_entity code name
record_row r = (
  instant r.consensus_timestamp,
  record {
    index = 0;
    kind = kind_text r.kind;
    payer = entity_text r.id.payer;
    outcome = if is_success_status r.status then success else failed;
    result = codes (name r.status);
    code = some (code r.status);
    entity = hapi_entity r;
    at_millis = pos 0;
    fee_tinybar = r.charged_fee;
  },
)

-- Stable, like `sort_by_key`: a row goes in front of the later ones with its key.
unfoldable pub insert_row : Row → List Row → List Row
insert_row x [] = x ∷ []
insert_row x (y ∷ ys) = if leb x.0 y.0 then x ∷ y ∷ ys else y ∷ insert_row x ys

unfoldable pub sort_rows : List Row → List Row
unfolding insert_row
sort_rows [] = []
sort_rows (x ∷ xs) = insert_row x (sort_rows xs)

-- The entries from position `n` on, with their distance from the first key.
unfoldable pub number_rows : ℕ → ℕ → List Row → List Entry
unfolding add_u64 to_i64
number_rows n origin [] = []
number_rows n origin ((key, e) ∷ rows) =
    record e { index = add_u64 n 1; at_millis = to_i64 ((key - origin) / 1_000_000 % u64_mod) }
    ∷ number_rows (n + 1) origin rows

abbrev pub origin_of : List Row → ℕ
origin_of [] = 0
origin_of (row ∷ rows) = row.0

unfoldable pub entries_of : List Row → List Entry
unfolding sort_rows number_rows
entries_of rows = let sorted = sort_rows rows in number_rows 0 (origin_of sorted) sorted

abbrev pub is_rejected : Entry → Bool
is_rejected e = elim e.outcome [ rejected ↦ true | _ ↦ false ]

abbrev pub is_failed : Entry → Bool
is_failed e = elim e.outcome [ failed ↦ true | _ ↦ false ]

unfoldable pub counts : List Entry → Summary
counts entries =
    let refused = length (keep is_rejected entries) in
    let broken = length (keep is_failed entries) in
    record {
      transactions = length entries;
      succeeded = length entries - refused - broken;
      failed = broken;
      rejected = refused;
    }

abbrev pub halted : Option Bytes → Bytes
halted (some halt) = codes "halted: " ++ halt
halted none = codes "reverted"

abbrev pub failure_text : Reason → Option Bytes → Result Panic Bytes
failure_text (text t) halt = ok (codes "reverted: " ++ t)
failure_text (panic_code n) halt = ok (codes "reverted: panic code " ++ hex n)
failure_text no_reason halt = ok (halted halt)
failure_text panics halt = err length_too_large

unfoldable pub evm_failure : (Bytes → Bytes) → TxRecord → Result Panic Bytes
unfolding revert_reason hex
evm_failure from_utf8_lossy tx =
    failure_text (revert_reason from_utf8_lossy tx.receipt.output) tx.receipt.halt_reason

module _ {Db : Type 0} where
  unfoldable pub mark_of : ChainState Db → Mark
  unfolding rejections_seen
  mark_of s = record {
    records = length s.hapi_records;
    blocks = length s.blocks;
    rejections = rejections_seen s;
  }

module _ {Db : Type 0} (from_utf8_lossy : Bytes → Bytes) (show_address : Address → Bytes) where
  unfoldable pub evm_payer : ChainState Db → Address → Bytes
  unfolding account_by_evm entity_text
  evm_payer s from = elim (account_by_evm s from) [
    | none ↦ show_address from
    | some a ↦ entity_text a.id
  ]

  unfoldable pub rejected_payer : ChainState Db → Rejection → Bytes
  unfolding evm_payer entity_text
  rejected_payer s r = elim r.payer [
    | some payer ↦ entity_text payer
    | none ↦ elim r.from [ some address ↦ evm_payer s address | none ↦ codes "unknown" ]
  ]

  abbrev pub evm_row : ChainState Db → TxRecord → Outcome → Bytes → Row
  evm_row s tx outcome result = (
    instant tx.consensus_timestamp,
    record {
      index = 0;
      kind = codes "ETHEREUMTRANSACTION";
      payer = evm_payer s tx.from;
      outcome = outcome;
      result = result;
      code = none;
      entity = elim tx.receipt.contract_address [
        | none ↦ none
        | some address ↦ some (show_address address ++ codes " (deploy)")
      ];
      at_millis = pos 0;
      fee_tinybar = saturating_mul tx.receipt.gas_used tx.receipt.effective_gas_price;
    },
  )

  abbrev pub mined_row : ChainState Db → TxRecord → Result Panic Row
  mined_row s tx =
      if tx.receipt.success
      then ok (evm_row s tx success (codes "SUCCESS"))
      else do result ← evm_failure from_utf8_lossy tx; ok (evm_row s tx failed result)

  -- Transactions that came over HAPI are among the records already.
  unfoldable pub evm_rows : ChainState Db → List Bytes → List B256 → Result Panic (List Row)
  unfolding has be_bytes instant evm_payer evm_failure saturating_mul
  evm_rows s over_hapi [] = ok []
  evm_rows s over_hapi (hash ∷ hashes) =
      let others = evm_rows s over_hapi hashes in
      if has (be_bytes 32 hash) over_hapi then others else elim (transaction s hash) [
        | none ↦ others
        | some tx ↦ do row ← mined_row s tx; rest ← others; ok (row ∷ rest)
      ]

  unfoldable pub rejection_row : ChainState Db → Rejection → Row
  unfolding instant rejected_payer reason code
  rejection_row s r = (
    instant r.at,
    record {
      index = 0;
      kind = kind_name r;
      payer = rejected_payer s r;
      outcome = rejected;
      result = reason r;
      code = elim r.status [ none ↦ none | some status ↦ some (code status) ];
      entity = none;
      at_millis = pos 0;
      fee_tinybar = 0;
    },
  )

  -- Everything since the mark, unless a revert's text cannot be read.
  unfoldable pub since : ChainState Db → Mark → Result Panic (List Entry)
  unfolding record_row evm_rows rejection_row entries_of
  since s mark = do
    let records = drop mark.records s.hapi_records
    let over_hapi =
        keep (λ hash. not (length hash == 0)) (map (λ (r : Record). r.ethereum_hash) records)
    evm ←
        evm_rows s over_hapi (flat_map (λ (b : Block). b.transactions) (drop mark.blocks s.blocks))
    let refused = drop (saturating_sub mark.rejections s.rejections_dropped) s.rejections
    ok (entries_of (map record_row records ++ (evm ++ map (rejection_row s) refused)))
