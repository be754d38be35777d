-- ===== src/Rpc/Params.antt =====
-- The parameters of JSON-RPC methods, of src/rpc/types.rs.
pub mod RoundTrip
use hanvil.Prelude.{
  ℕ, ℤ, pos, ◌+◌, ◌==◌, Bool, true, false, not, ◌&&◌, ◌||◌, Option, none, some, List, [], ◌∷◌, ◌++◌,
  Bytes, codes, ltb, if◌then◌else◌, any,
}
use hanvil.Prelude.Result.{Result, ok, err, ◌>>=◌, map_err, ok_or}
use hanvil.Word.{u64_mod}
use hanvil.Units.{Tinybar, Address, from_weibar_exact, from_weibar_floor}
use hanvil.Blocks.{B256, Block, LogFilter, CallRequest}
use hanvil.Chain.{ChainState, block_number}
use hanvil.Text.{same_text, strip_prefix}
use hanvil.Rpc.{
  Value, null, bool, number, other_number, string, array, object, Values, nil, cons, Fields, end,
  field, items, find, as_text, Formats, hash,
}
use hanvil.Rpc.Errors.{RpcError, invalid_params, server, unit_error_text}

-- `and_then(Value::as_str)`
abbrev pub param_text : Option Value → Option Bytes
param_text none = none
param_text (some v) = as_text v

-- `strip_prefix("0x").unwrap_or(text)`
abbrev pub without_0x : Bytes → Bytes
without_0x text = elim (strip_prefix (codes "0x") text) [ none ↦ text | some rest ↦ rest ]

-- An absent value, or `null`.
abbrev pub given : Option Value → Option Value
given none = none
given (some null) = none
given (some v) = some v

-- `latest`, `pending`, `safe` and `finalized`
abbrev pub is_head_tag : Bytes → Bool
is_head_tag tag =
    same_text tag (codes "latest")
    || (same_text tag (codes "pending")
        || (same_text tag (codes "safe") || same_text tag (codes "finalized")))

abbrev not_in : Bytes → Bytes → Bytes → Bytes
not_in before text behind = before ++ (text ++ behind)

module _ (formats : Formats) where
  unfoldable pub parse_address : Option Value → Result RpcError Address
  parse_address param = do
    text ← ok_or (param_text param) (invalid_params (codes "address must be a hex string"))
    ok_or (formats.parse_address_text text)
        (invalid_params (not_in (codes "`") text (codes "` is not a 20-byte hex address")))

  unfoldable pub parse_hash : Option Value → Result RpcError B256
  parse_hash param = do
    text ← ok_or (param_text param) (invalid_params (codes "hash must be a hex string"))
    ok_or (formats.parse_hash_text text)
        (invalid_params (not_in (codes "`") text (codes "` is not a 32-byte hex hash")))

  abbrev quantity_of : Bytes → Value → Result RpcError ℕ
  quantity_of name (string text) =
      ok_or (formats.from_str_radix_16 (without_0x text))
        (invalid_params (name ++ (codes ": `" ++ (text ++ codes "` is not hex"))))
  quantity_of name (number (pos n)) = ok n
  quantity_of name (number n) =
      err (invalid_params (name ++ codes " must be a non-negative integer"))
  quantity_of name (other_number text) =
      err (invalid_params (name ++ codes " must be a non-negative integer"))
  quantity_of name v = err (invalid_params (name ++ codes " is required"))

  unfoldable pub parse_quantity : Option Value → Bytes → Result RpcError ℕ
  parse_quantity none name = err (invalid_params (name ++ codes " is required"))
  parse_quantity (some v) name = quantity_of name v

  unfoldable pub parse_u64 : Option Value → Bytes → Result RpcError ℕ
  unfolding parse_quantity
  parse_u64 param name = do
    n ← parse_quantity param name
    if ltb n u64_mod then ok n else err (invalid_params (name ++ codes " exceeds 64 bits"))

  unfoldable pub parse_bytes : Option Value → Bytes → Result RpcError Bytes
  parse_bytes param name = do
    text ← ok_or (param_text param) (invalid_params (name ++ codes " must be a hex string"))
    ok_or (formats.hex_decode (without_0x text))
        (invalid_params (name ++ (codes ": `" ++ (text ++ codes "` is not hex"))))

  -- The number of the block with a hash.
  abbrev number_found : B256 → Option Block → Result RpcError ℕ
  number_found h none = err (server (codes "block " ++ (hash h ++ codes " not found")))
  number_found h (some b) = ok b.number

abbrev block_with : B256 → List Block → Option Block
block_with h [] = none
block_with h (b ∷ bs) = if b.hash == h then some b else block_with h bs

module _ {Db : Type 0} where
  unfoldable pub block_by_hash : ChainState Db → B256 → Option Block
  block_by_hash s h = block_with h s.blocks

module _ (formats : Formats) {Db : Type 0} (s : ChainState Db) where
  mutual
    -- A block tag or number; an object names a number or a hash.
    pub block_number_of : Value → Result RpcError ℕ
    block_number_of null = ok (block_number s)
    block_number_of (string tag) =
        if is_head_tag tag
        then ok (block_number s)
        else if same_text tag (codes "earliest")
        then ok 0
        else parse_u64 formats (some (string tag)) (codes "block number")
    block_number_of (object fs) = elim (named_block fs) [
      | some found ↦ found
      | none ↦ elim (find (codes "blockHash") fs) [
        | none ↦ err (invalid_params (codes "block spec needs blockNumber or blockHash"))
        | some v ↦ parse_hash formats (some v) >>= λ h. number_found formats h (block_by_hash s h)
      ]
    ]
    block_number_of v = err (
        invalid_params
          (codes "block tag `" ++ (formats.value_text v ++ codes "` is not a tag or a hex number")))

    -- What the field `blockNumber` gives.
    pub named_block : Fields → Option (Result RpcError ℕ)
    named_block end = none
    named_block (field key v rest) =
        let found = block_number_of v in
        let others = named_block rest in
        if same_text key (codes "blockNumber") then some found else others

  unfoldable pub parse_block_number : Option Value → Result RpcError ℕ
  unfolding block_number_of
  parse_block_number none = ok (block_number s)
  parse_block_number (some v) = block_number_of v

-- Every element, or the first refusal.
abbrev pub collect : {A : Type 0} → (Value → Result RpcError A) → Values → Result RpcError (List A)
collect read nil = ok []
collect read (cons v vs) = read v >>= λ a. collect read vs >>= λ rest. ok (a ∷ rest)

-- `None | Some(Value::Null) => Ok(None)`
abbrev pub optional :
    {A : Type 0} → (Option Value → Result RpcError A) → Option Value → Result RpcError (Option A)
optional read param = elim (given param) [
  | none ↦ ok none
  | some v ↦ read (some v) >>= λ a. ok (some a)
]

-- The first of two fields that is there.
abbrev pub first_of : Option Value → Option Value → Option Value
first_of (some v) other = some v
first_of none other = other

module _ (formats : Formats) where
  abbrev value_of : Option Value → Result RpcError Tinybar
  value_of param = elim (given param) [
    | none ↦ ok 0
    | some v ↦ parse_quantity formats (some v) (codes "value") >>= λ wei.
        map_err (λ e. invalid_params (unit_error_text e)) (from_weibar_exact wei)
  ]

  abbrev gas_price_of : Option Value → Result RpcError (Option ℕ)
  gas_price_of = optional λ param. parse_quantity formats param (codes "gasPrice") >>= λ wei.
      map_err (λ e. invalid_params (unit_error_text e)) (from_weibar_floor wei)

  abbrev input_of : Option Value → Result RpcError Bytes
  input_of param = elim (given param) [
    | none ↦ ok []
    | some v ↦ parse_bytes formats (some v) (codes "data")
  ]

  abbrev call_of_fields : Fields → Result RpcError CallRequest
  call_of_fields fs = do
    value ← value_of (find (codes "value") fs)
    gas_price ←
        gas_price_of (first_of (find (codes "gasPrice") fs) (find (codes "maxFeePerGas") fs))
    input ← input_of (first_of (find (codes "input") fs) (find (codes "data") fs))
    from ← optional (parse_address formats) (find (codes "from") fs)
    to ← optional (parse_address formats) (find (codes "to") fs)
    gas ← optional (λ param. parse_u64 formats param (codes "gas")) (find (codes "gas") fs)
    ok (record {
      from = from;
      to = to;
      gas = gas;
      gas_price = gas_price;
      value = value;
      input = input;
    })

  unfoldable pub parse_call : Option Value → Result RpcError CallRequest
  unfolding parse_quantity parse_address parse_bytes parse_u64 from_weibar_exact from_weibar_floor
  parse_call (some (object fs)) = call_of_fields fs
  parse_call param = err (invalid_params (codes "first parameter must be a transaction object"))

  unfoldable pub parse_optional_nonce : Option Value → Result RpcError (Option ℕ)
  unfolding parse_u64
  parse_optional_nonce (some (object fs)) =
      optional (λ param. parse_u64 formats param (codes "nonce")) (find (codes "nonce") fs)
  parse_optional_nonce param = ok none

abbrev pinned_by : Option Value → Bool
pinned_by none = false
pinned_by (some null) = false
pinned_by (some (string tag)) = not (is_head_tag tag)
pinned_by (some v) = true

unfoldable pub to_block_is_pinned : Option Value → Bool
to_block_is_pinned (some (object fs)) = pinned_by (find (codes "toBlock") fs)
to_block_is_pinned param = false

module _ (formats : Formats) where
  abbrev addresses_of : Option Value → Result RpcError (List Address)
  addresses_of none = ok []
  addresses_of (some null) = ok []
  addresses_of (some (array vs)) = collect (λ v. parse_address formats (some v)) vs
  addresses_of (some v) = parse_address formats (some v) >>= λ a. ok (a ∷ [])

  abbrev clause_of : Value → Result RpcError (Option (List B256))
  clause_of null = ok none
  clause_of (array vs) = collect (λ v. parse_hash formats (some v)) vs >>= λ hs. ok (some hs)
  clause_of v = parse_hash formats (some v) >>= λ h. ok (some (h ∷ []))

  abbrev topics_of : Option Value → Result RpcError (List (Option (List B256)))
  topics_of none = ok []
  topics_of (some null) = ok []
  topics_of (some (array vs)) = collect clause_of vs
  topics_of (some v) = err (invalid_params (codes "topics must be an array"))

  module _ {Db : Type 0} (s : ChainState Db) where
    -- A block hash names both ends.
    abbrev range_of : Fields → Result RpcError (ℕ × ℕ)
    range_of fs = elim (param_text (find (codes "blockHash") fs)) [
      | some h ↦ parse_hash formats (find (codes "blockHash") fs) >>= λ h.
          number_found formats h (block_by_hash s h) >>= λ n. ok (n, n)
      | none ↦ parse_block_number formats s (find (codes "fromBlock") fs) >>= λ from.
          parse_block_number formats s (find (codes "toBlock") fs) >>= λ to. ok (from, to)
    ]

    unfoldable pub parse_log_filter : Option Value → Result RpcError LogFilter
    unfolding parse_address parse_hash block_by_hash parse_block_number
    parse_log_filter (some (object fs)) = do
      range ← range_of fs
      addresses ← addresses_of (find (codes "address") fs)
      topics ← topics_of (find (codes "topics") fs)
      ok (record {
        from_block = range.0;
        to_block = range.1;
        addresses = addresses;
        topics = topics;
      })
    parse_log_filter param = err (invalid_params (codes "first parameter must be a filter object"))
