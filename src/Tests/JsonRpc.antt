-- ===== src/Tests/JsonRpc.antt =====
-- JSON-RPC requests to a small chain.
use hanvil.Prelude.{
  ℕ, ◌+◌, ◌*◌, ◌≡◌, refl, arith, pos, true, false, Option, none, some, List, [], ◌∷◌, Bytes, codes,
}
use hanvil.Prelude.Result.{ok}
use hanvil.Time.{Timestamp, at_secs}
use hanvil.Maps.BTreeMap
use hanvil.Maps.HashMap
use hanvil.Text.{strip_prefix}
use hanvil.Rpc.{
  Value, null, bool, number, string, array, object, values, fields, Formats, quantity, quantity_u64,
  weibar,
}
use hanvil.Rpc.Errors.{RpcError, invalid_params}
use hanvil.Rpc.Params.{parse_quantity}
use hanvil.Rpc.Params.RoundTrip.{read_hex, ReadsHex, parse_quantity-quantity}
use hanvil.Rpc.Eth.Methods.{method_of}
use hanvil.Rpc.Eth.{handle, eth_call}
use hanvil.Rpc.Eth.Sending.{answered}
use hanvil.Rpc.Eth.Effects.{Quiet, eth_call-Quiet}
use hanvil.Rpc.Eth.Refusals.{IsKept, sending, handle_refused}
use hanvil.Rpc.Cheats.{cheat_call}
use hanvil.Rpc.Cheats.Copies.{AreOrderly}
use hanvil.Rpc.Cheats.Restore.{evm_revert-evm_snapshot}
use hanvil.Rpc.Dispatch.{parsed, batch, handle_body}
use hanvil.Rpc.Dispatch.Order.{handle_body-AreOrderly}
use hanvil.Rpc.Dispatch.Answers.{AreAnswers, batch-AreAnswers}
use hanvil.Chain.{Chain}
use hanvil.Chain.Snapshots.{snapshot, retain_below}
use hanvil.Chain.Snapshots.Restore.{LeavesOlder}
use hanvil.Tests.Samples.{machine, town, town_chain}
use hanvil.Tests.Histories.{town-IsOrderly}

-- The digits behind `0x`.
abbrev hex_number : Bytes → Option ℕ
hex_number text = elim (strip_prefix (codes "0x") text) [
  | none ↦ none
  | some rest ↦ some (read_hex 0 rest)
]

abbrev plain : Formats
plain = record {
  display_address = λ a. [];
  parse_address_text = hex_number;
  parse_hash_text = hex_number;
  from_str_radix_16 = λ text. some (read_hex 0 text);
  hex_decode = λ text. some text;
  key_error_text = λ e. [];
  value_text = λ v. [];
  from_utf8_lossy = λ b. b;
  ratio = λ a b. null;
  signature_of = λ e. (0, 0, 0);
  access_entries = λ e. [];
}

plain-ReadsHex : ReadsHex plain
plain-ReadsHex text some_digit digits small = refl

abbrev now : Timestamp
now = at_secs 1_006 0

abbrev clock : ℕ → Timestamp
clock n = at_secs (1_006 + n) 0

abbrev request : Value → Bytes → List Value → Value
request id method params = object (
    fields (
      (codes "id", id)
      ∷ (codes "method", string method)
      ∷ (codes "params", array (values params))
      ∷ []))

abbrev first_user : Value
first_user = string (codes "0x3ea")

-- The balance in weibar, at the head.
asked_balance :
    eth_call plain machine now (codes "eth_getBalance") (first_user ∷ []) town
    ≡ (town, answered (ok (string (quantity (1_000_000 * 10_000_000_000)))))
unfolding eth_call weibar HashMap.get BTreeMap.get
asked_balance = refl

no_history :
    eth_call plain machine now (codes "eth_getBlockByNumber") (string (codes "0x7") ∷ []) town
    ≡ (town, answered (ok null))
unfolding eth_call
no_history = refl

mined_two :
    (cheat_call plain machine now (codes "hardhat_mine") (string (codes "0x2") ∷ []) town_chain).1
    ≡ ok null
unfolding cheat_call
mined_two = refl

parse_quantity-quantity_example :
    parse_quantity plain (some (string (quantity 298))) (codes "blocks") ≡ ok 298
parse_quantity-quantity_example =
    parse_quantity-quantity plain 298 (codes "blocks") plain-ReadsHex (omega arith)

eth_call-Quiet_example :
    Quiet town (eth_call plain machine now (codes "eth_newBlockFilter") [] town).0
unfolding method_of
eth_call-Quiet_example = eth_call-Quiet plain machine now (codes "eth_newBlockFilter") [] town refl

-- A transaction with no object for its parameter.
abbrev no_object : RpcError
no_object = invalid_params (codes "first parameter must be a transaction object")

handle_refused_example :
    IsKept plain machine now town
      (handle plain machine now (sending plain machine now false) [] town).0
      none
      no_object
unfolding handle
handle_refused_example =
    handle_refused plain machine now false [] town
      (handle plain machine now (sending plain machine now false) [] town).0 no_object (omega arith)
      refl

-- Behind a second snapshot, at another gas price.
abbrev snapped : Chain ℕ
snapped = record {
  state = record town { gas_price = 5; next_snapshot = 3 };
  snapshots =
      (1, record town { next_snapshot = 2 })
      ∷ (2, record town { gas_price = 5; next_snapshot = 3 })
      ∷ [];
}

snapped-LeavesOlder :
    LeavesOlder (cheat_call plain machine now (codes "evm_snapshot") [] town_chain).0 snapped
unfolding cheat_call snapshot retain_below BTreeMap.insert
snapped-LeavesOlder = record {
  numbered = record {
    ordered = (omega arith, (omega arith, tt));
    below = (omega arith, (omega arith, tt));
  };
  older = refl;
  counter = omega arith;
}

evm_revert-evm_snapshot_example :
    cheat_call plain machine now (codes "evm_revert") (string (quantity_u64 1) ∷ []) snapped
    ≡ (record { state = record town { next_snapshot = 3 }; snapshots = [] }, ok (bool true))
unfolding cheat_call
evm_revert-evm_snapshot_example =
    evm_revert-evm_snapshot plain machine now town_chain snapped (string (quantity_u64 1)) []
      plain-ReadsHex (omega arith) (record { ordered = tt; below = tt }) refl snapped-LeavesOlder

abbrev two_requests : List Value
two_requests =
    request (number (pos 7)) (codes "eth_chainId") []
    ∷ request (string (codes "b")) (codes "evm_mine") []
    ∷ []

town-AreOrderly : AreOrderly town_chain
town-AreOrderly = record { head = town-IsOrderly; copies = tt }

handle_body-AreOrderly_example :
    AreOrderly (handle_body plain machine clock (parsed (array (values two_requests))) town_chain).0
handle_body-AreOrderly_example =
    handle_body-AreOrderly plain machine clock (parsed (array (values two_requests))) town_chain
      town-AreOrderly

abbrev result_of : Value → Value → Value
result_of id v =
    object (
      fields
        ((codes "jsonrpc", string (codes "2.0")) ∷ (codes "id", id) ∷ (codes "result", v) ∷ []))

abbrev two_answers : List Value
two_answers =
    result_of (number (pos 7)) (string (codes "0x12a"))
    ∷ result_of (string (codes "b")) (string (codes "0x0"))
    ∷ []

batch-AreAnswers_example : AreAnswers two_requests two_answers
unfolding batch
batch-AreAnswers_example =
    batch-AreAnswers plain machine clock 0 (values two_requests) town_chain two_answers refl
