-- ===== src/Mirror/Params.antt =====
-- The query strings of the mirror API, of src/mirror/mod.rs and src/mirror/shapes.rs.
use hanvil.Prelude.{
  ℕ, ◌-◌, ◌==◌, Bool, true, false, not, ◌&&◌, ◌||◌, Option, none, some, List, [], ◌∷◌, ◌++◌, Bytes,
  codes, length, leb, take, replicate, any, if◌then◌else◌,
}
use mathlib.Core.List.{reverse}
use hanvil.Prelude.Result.{Result, ok, err, ◌>>=◌}
use hanvil.Time.{Timestamp, at_secs, later, timestamp_eq}
use hanvil.Accounts.{EntityId}
use hanvil.Text.{same_text, has, split_once, strip_prefix}
use hanvil.Harness.Signer.{read_u64}
use hanvil.Mirror.{MirrorError, invalid_parameter, unapplied_parameter, parse_u32, entity_of_text}

-- No operator means `equal`.
pub data Operator : Type 0 where
  equal : Operator
  unequal : Operator
  greater : Operator
  at_least : Operator
  less : Operator
  at_most : Operator

pub record TimestampFilter : Type 0 where
  pub operator : Operator
  pub at : Timestamp

unfoldable pub timestamp_matches : TimestampFilter → Timestamp → Bool
unfolding later
timestamp_matches f at = elim f.operator [
  | equal ↦ timestamp_eq at f.at
  | unequal ↦ not (timestamp_eq at f.at)
  | greater ↦ later at f.at
  | at_least ↦ later at f.at || timestamp_eq at f.at
  | less ↦ later f.at at
  | at_most ↦ later f.at at || timestamp_eq at f.at
]

abbrev operator_of : Bytes → Option Operator
operator_of text =
    if same_text text (codes "eq")
    then some equal
    else if same_text text (codes "ne")
    then some unequal
    else if same_text text (codes "gt")
    then some greater
    else if same_text text (codes "gte")
    then some at_least
    else if same_text text (codes "lt")
    then some less
    else if same_text text (codes "lte")
    then some at_most
    else none

abbrev all_digits : Bytes → Bool
all_digits text = not (any (λ c. not (leb 48 c && leb c 57)) text)

-- The operator and the value behind it.
abbrev operator_and_value : Bytes → Option (Operator × Bytes)
operator_and_value text = elim (split_once 58 text) [
  | none ↦ some (equal, text)
  | some (name, value) ↦ elim (operator_of name) [
    | none ↦ none
    | some operator ↦ some (operator, value)
  ]
]

-- The seconds and the fraction, of nine digits at most.
abbrev secs_and_nanos : Bytes → Option (Bytes × Bytes)
secs_and_nanos value = elim (split_once 46 value) [
  | none ↦ some (value, codes "0")
  | some (secs, nanos) ↦
      if leb 1 (length nanos) && leb (length nanos) 9 then some (secs, nanos) else none
]

-- `{nanos:0<9}`
abbrev padded : Bytes → Bytes
padded nanos = nanos ++ replicate (9 - length nanos) 48

abbrev instant_of : Bytes → Bytes → Option Timestamp
instant_of secs nanos =
    if (leb 1 (length secs) && (leb (length secs) 10 && all_digits secs)) && all_digits nanos
    then elim (read_u64 secs) [
      | none ↦ none
      | some s ↦ elim (parse_u32 (padded nanos)) [ none ↦ none | some n ↦ some (at_secs s n) ]
    ]
    else none

unfoldable pub parse_timestamp_filter : Bytes → Result MirrorError TimestampFilter
unfolding read_u64
parse_timestamp_filter text = elim (operator_and_value text) [
  | none ↦ err (invalid_parameter (codes "timestamp"))
  | some (operator, value) ↦ elim (secs_and_nanos value) [
    | none ↦ err (invalid_parameter (codes "timestamp"))
    | some (secs, nanos) ↦ elim (instant_of secs nanos) [
      | none ↦ err (invalid_parameter (codes "timestamp"))
      | some at ↦ ok (record { operator = operator; at = at })
    ]
  ]
]

-- The pairs of a query string, repeats included.
abbrev Params : Type 0
Params = List (Bytes × Bytes)

-- Every value given for a name.
abbrev all_values : Bytes → Params → List Bytes
all_values name [] = []
all_values name ((key, value) ∷ rest) =
    let others = all_values name rest in if same_text key name then value ∷ others else others

abbrev get_value : Bytes → Params → Option Bytes
get_value name params = elim (all_values name params) [ [] ↦ none | value ∷ _ ↦ some value ]

unfoldable pub limit : Params → Result MirrorError ℕ
unfolding read_u64
limit params = elim (get_value (codes "limit") params) [
  | none ↦ ok 25
  | some text ↦ elim (read_u64 text) [
    | none ↦ err (invalid_parameter (codes "limit"))
    | some n ↦ if leb 1 n && leb n 100 then ok n else err (invalid_parameter (codes "limit"))
  ]
]

pub data Order : Type 0 where
  asc : Order
  desc : Order

unfoldable pub order : Order → Params → Result MirrorError Order
order default params = elim (get_value (codes "order") params) [
  | none ↦ ok default
  | some text ↦
      if same_text text (codes "asc")
      then ok asc
      else if same_text text (codes "desc")
      then ok desc
      else err (invalid_parameter (codes "order"))
]

unfoldable pub flag : Bytes → Bool → Params → Result MirrorError Bool
flag name default params = elim (get_value name params) [
  | none ↦ ok default
  | some text ↦
      if same_text text (codes "true")
      then ok true
      else if same_text text (codes "false")
      then ok false
      else err (invalid_parameter name)
]

-- `collect` into a result: the first refusal, or all clauses.
abbrev parse_all : List Bytes → Result MirrorError (List TimestampFilter)
parse_all [] = ok []
parse_all (text ∷ rest) = parse_timestamp_filter text >>= λ f. parse_all rest >>= λ fs. ok (f ∷ fs)

unfoldable pub timestamps : Params → Result MirrorError (List TimestampFilter)
unfolding parse_timestamp_filter
timestamps params = parse_all (all_values (codes "timestamp") params)

-- `text.strip_prefix("eq:").unwrap_or(text)`
abbrev without_eq : Bytes → Bytes
without_eq text = elim (strip_prefix (codes "eq:") text) [ none ↦ text | some rest ↦ rest ]

unfoldable pub entity_filter : Bytes → Params → Result MirrorError (Option EntityId)
unfolding entity_of_text
entity_filter name params = elim (get_value name params) [
  | none ↦ ok none
  | some text ↦
      if any (λ c. c == 58) (without_eq text)
      then err (invalid_parameter name)
      else elim (entity_of_text (without_eq text)) [
        | none ↦ err (invalid_parameter name)
        | some id ↦ ok (some id)
      ]
]

-- The first parameter that the endpoint does not apply is refused.
unfoldable pub only : List Bytes → Params → Result MirrorError (Unit {0})
unfolding has
only applied [] = ok tt
only applied ((key, value) ∷ rest) =
    let others = only applied rest in
    if has key applied then others else err (unapplied_parameter key applied)

unfoldable pub page {ℓ} : {A : Type ℓ} → List A → Order → ℕ → List A
page items asc n = take n items
page items desc n = take n (reverse items)
