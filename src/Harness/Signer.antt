-- ===== src/Harness/Signer.antt =====
-- The run's signer account, of src/harness/chain.rs: the transactions that the operator sends in
-- the node's own process.
pub mod Fresh
pub mod EntityIds
use hanvil.Prelude.{
  ℕ, zero, suc, ◌+◌, ◌*◌, ◌-◌, ◌==◌, Bool, true, false, not, pos, Option, none, some, List, [], ◌∷◌,
  ◌++◌, Bytes, codes, ltb, leb, length, replicate, if◌then◌else◌, ◌&&◌,
}
use hanvil.Word.{u64_mod, decimal}
use hanvil.Time.{Timestamp, next_nano}
use hanvil.Accounts.{EntityId, entity_text}
use hanvil.Records.{TxId, tx_id_has_eq, Transaction, Body, Record}
use hanvil.Records.Responses.{Status, name}
use hanvil.Evm.{Externals}
use hanvil.Chain.{ChainState, first_user_id, hapi_fee, has_transaction_id}
use hanvil.Chain.Apply.{apply_hapi}
use hanvil.Text.{same_text, split_on}

abbrev pub operator : EntityId
operator = first_user_id

abbrev pub operator_id : Timestamp → TxId
operator_id now = record { payer = operator; valid_start = now; nonce = pos 0; scheduled = false }

abbrev pub next_id : TxId → TxId
next_id id = record id { valid_start = next_nano id.valid_start }

-- `value.split('.')`
abbrev pub split_dots : Bytes → List Bytes
split_dots = split_on 46

-- The digits behind the number read so far; none for another character or beyond a u64.
unfoldable pub read_digits : ℕ → Bytes → Option ℕ
read_digits n [] = some n
read_digits n (c ∷ cs) =
    let rest = read_digits (n * 10 + (c - 48)) cs in
    if (leb 48 c && leb c 57) && ltb (n * 10 + (c - 48)) u64_mod then rest else none

-- `str::parse::<u64>`: one sign `+` is read over, and there is a digit.
unfoldable pub read_u64 : Bytes → Option ℕ
unfolding read_digits
read_u64 [] = none
read_u64 (c ∷ []) = read_digits 0 (c ∷ [])
read_u64 (c ∷ d ∷ cs) = if c == 43 then read_digits 0 (d ∷ cs) else read_digits 0 (c ∷ d ∷ cs)

abbrev pub entity_of_parts : List Bytes → Option EntityId
entity_of_parts (shard ∷ realm ∷ num ∷ []) =
    if same_text shard (codes "0") && same_text realm (codes "0") then read_u64 num else none
entity_of_parts _ = none

unfoldable pub parse_entity_id : Bytes → Option EntityId
unfolding read_u64
parse_entity_id value = entity_of_parts (split_dots value)

-- `{:09}`: zeros in front, up to nine digits.
abbrev pub nine_digits : ℕ → Bytes
nine_digits n = replicate (9 - length (decimal n)) 48 ++ decimal n

unfoldable pub tx_id_text : TxId → Bytes
unfolding decimal entity_text
tx_id_text id =
    entity_text id.payer
    ++ (codes "-"
        ++ (decimal id.valid_start.secs ++ (codes "-" ++ nine_digits id.valid_start.nanos)))

module _ {Db : Type 0} where
  -- `while has_transaction_id(&id) { id.valid_start = next_nano }`, for at most `fuel` rounds;
  -- `none` when they do not suffice.
  unfoldable pub unique_from : ℕ → ChainState Db → TxId → Option TxId
  unfolding next_nano
  unique_from zero s id = none
  unique_from (suc fuel) s id =
      let rest = unique_from fuel s (next_id id) in
      if has_transaction_id s id then rest else some id

  unfoldable pub unique_tx_id : ℕ → ChainState Db → Timestamp → Option TxId
  unfolding unique_from
  unique_tx_id fuel s now = unique_from fuel s (operator_id now)

module _ {Db : Type 0} (ext : Externals Db) where
  -- The digest is a SHA-384.
  unfoldable pub operator_transaction :
      ℕ → ChainState Db → Timestamp → Bytes → Body → Option Transaction
  unfolding unique_tx_id tx_id_text
  operator_transaction fuel s now memo body = elim (unique_tx_id fuel s now) [
    | none ↦ none
    | some id ↦ some (record {
      id = id;
      memo = memo;
      max_fee = hapi_fee;
      hash = ext.sha384 (codes "hanvil " ++ (memo ++ (codes " " ++ tx_id_text id)));
      valid_duration_seconds = 120;
      body = body;
    })
  ]

  -- What a sweep answers, behind the state that it leaves.
  pub record Swept : Type 0 where
    pub success : Bool
    pub error : Option Bytes

  abbrev pub swept_by : Record → Swept
  swept_by r = elim r.status [
    | Status.success ↦ record { success = true; error = none }
    | _ ↦ record { success = false; error = some (codes (name r.status)) }
  ]

  -- `sweep` but for the removal of the signer's file. `none` is a loop that did not end.
  unfoldable pub sweep :
      ℕ
      → ChainState Db
      → (account_id : Bytes) (sweep_back : Bool) → Timestamp
      → ChainState Db × Option Swept
  unfolding parse_entity_id operator_transaction apply_hapi name
  sweep fuel s account_id false now = (s, some (record { success = true; error = none }))
  sweep fuel s account_id true now = elim (parse_entity_id account_id) [
    | none ↦ (
      s,
      some (record {
        success = false;
        error = some (codes "signer account id " ++ (account_id ++ codes " is not 0.0.N"));
      }),
    )
    | some account ↦
        elim (operator_transaction fuel s now (codes "hanvil run signer sweep")
          (Body.delete account operator)) [
            | none ↦ (s, none)
            | some tx ↦ (let (r, s') = apply_hapi ext tx now s in (s', some (swept_by r)))
          ]
  ]
