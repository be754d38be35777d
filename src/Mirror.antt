-- ===== src/Mirror.antt =====
-- The mirror API's ids, of src/mirror/shapes.rs and src/mirror/mod.rs.
pub mod Ids
pub mod Params
use hanvil.Prelude.{
  ℕ, Option, none, some, List, [], ◌∷◌, ◌++◌, Bytes, codes, ltb, ◌&&◌, if◌then◌else◌,
}
use hanvil.Prelude.Result.{Result, ok, err}
use hanvil.Word.{decimal}
use hanvil.Time.{Timestamp, at_secs}
use hanvil.Accounts.{EntityId, entity_text}
use hanvil.Text.{same_text, split_on, join}
use hanvil.Harness.Signer.{read_u64, nine_digits}

pub data MirrorError : Type 0 where
  not_found : (message : Bytes) (detail : Option Bytes) → MirrorError
  invalid : (message : Bytes) (detail : Option Bytes) → MirrorError

abbrev pub invalid_transaction_id : MirrorError
invalid_transaction_id =
    MirrorError.invalid
      (codes
        "Invalid Transaction id. Please use \"shard.realm.num-sss-nnn\" format where sss are seconds and nnn are nanoseconds")
      none

abbrev pub invalid_parameter : Bytes → MirrorError
invalid_parameter name = MirrorError.invalid (codes "Invalid parameter: " ++ name) none

abbrev applies : List Bytes → Bytes
applies [] = codes "this endpoint applies none"
applies (name ∷ rest) = codes "this endpoint applies " ++ join (name ∷ rest)

abbrev pub unapplied_parameter : Bytes → List Bytes → MirrorError
unapplied_parameter name applied =
    MirrorError.invalid (codes "Invalid parameter: " ++ name)
      (some (codes "hanvil does not apply " ++ (name ++ (codes "; " ++ applies applied))))

-- `str::parse::<u32>`
abbrev pub parse_u32 : Bytes → Option ℕ
parse_u32 text = elim (read_u64 text) [
  | none ↦ none
  | some n ↦ if ltb n 4_294_967_296 then some n else none
]

unfoldable pub transaction_id_text : EntityId → Timestamp → Bytes
unfolding entity_text decimal
transaction_id_text payer start =
    entity_text payer
    ++ (codes "-" ++ (decimal start.secs ++ (codes "-" ++ nine_digits start.nanos)))

abbrev pub entity_of_split : List Bytes → Option EntityId
entity_of_split (num ∷ []) = read_u64 num
entity_of_split (realm ∷ num ∷ []) = if same_text realm (codes "0") then read_u64 num else none
entity_of_split (shard ∷ realm ∷ num ∷ []) =
    if same_text shard (codes "0") && same_text realm (codes "0") then read_u64 num else none
entity_of_split _ = none

-- `parse_entity_id` of the mirror: `0.0.N`, `0.N` or `N`.
unfoldable pub entity_of_text : Bytes → Option EntityId
unfolding read_u64
entity_of_text text = entity_of_split (split_on 46 text)

abbrev pub id_of_parts :
    Option EntityId → Option ℕ → Option ℕ → Result MirrorError (EntityId × Timestamp)
id_of_parts (some entity) (some secs) (some nanos) = ok (entity, at_secs secs nanos)
id_of_parts _ _ _ = err invalid_transaction_id

unfoldable pub parse_transaction_id : Bytes → Result MirrorError (EntityId × Timestamp)
unfolding read_u64 entity_of_text
parse_transaction_id text = elim (split_on 45 text) [
  | id ∷ secs ∷ nanos ∷ [] ↦ id_of_parts (entity_of_text id) (read_u64 secs) (parse_u32 nanos)
  | _ ↦ err invalid_transaction_id
]
