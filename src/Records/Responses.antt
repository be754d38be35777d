-- ===== src/Records/Responses.antt =====
-- `Status` of src/state/hapi.rs: the response codes that the node can produce, with the number and
-- the name that the protocol gives each.
pub mod Inverse
use Prim.Native.String.{String}
use hanvil.Prelude.{ℕ}

pub data Status : Type 0 where
  ok invalid_transaction payer_account_not_found : Status
  invalid_node_account transaction_expired invalid_transaction_start : Status
  invalid_transaction_duration invalid_signature memo_too_long : Status
  insufficient_payer_balance duplicate_transaction not_supported : Status
  invalid_account_id invalid_contract_id transaction_oversize : Status
  invalid_transaction_id receipt_not_found record_not_found : Status
  success key_required bad_encoding : Status
  insufficient_account_balance contract_revert_executed contract_execution_exception : Status
  invalid_account_amounts invalid_transaction_body account_deleted : Status
  account_repeated_in_account_amounts invalid_topic_id invalid_topic_message : Status
  payer_account_deleted invalid_transfer_account_id alias_already_assigned : Status

unfoldable pub code : Status → ℕ
code ok = 0
code invalid_transaction = 1
code payer_account_not_found = 2
code invalid_node_account = 3
code transaction_expired = 4
code invalid_transaction_start = 5
code invalid_transaction_duration = 6
code invalid_signature = 7
code memo_too_long = 8
code insufficient_payer_balance = 10
code duplicate_transaction = 11
code not_supported = 13
code invalid_account_id = 15
code invalid_contract_id = 16
code transaction_oversize = 64
code invalid_transaction_id = 17
code receipt_not_found = 18
code record_not_found = 19
code success = 22
code key_required = 26
code bad_encoding = 27
code insufficient_account_balance = 28
code contract_revert_executed = 33
code contract_execution_exception = 34
code invalid_account_amounts = 48
code invalid_transaction_body = 50
code account_deleted = 72
code account_repeated_in_account_amounts = 74
code invalid_topic_id = 150
code invalid_topic_message = 158
code payer_account_deleted = 256
code invalid_transfer_account_id = 285
code alias_already_assigned = 332

unfoldable pub name : Status → String
name ok = "OK"
name invalid_transaction = "INVALID_TRANSACTION"
name payer_account_not_found = "PAYER_ACCOUNT_NOT_FOUND"
name invalid_node_account = "INVALID_NODE_ACCOUNT"
name transaction_expired = "TRANSACTION_EXPIRED"
name invalid_transaction_start = "INVALID_TRANSACTION_START"
name invalid_transaction_duration = "INVALID_TRANSACTION_DURATION"
name invalid_signature = "INVALID_SIGNATURE"
name memo_too_long = "MEMO_TOO_LONG"
name insufficient_payer_balance = "INSUFFICIENT_PAYER_BALANCE"
name duplicate_transaction = "DUPLICATE_TRANSACTION"
name not_supported = "NOT_SUPPORTED"
name invalid_account_id = "INVALID_ACCOUNT_ID"
name invalid_contract_id = "INVALID_CONTRACT_ID"
name transaction_oversize = "TRANSACTION_OVERSIZE"
name invalid_transaction_id = "INVALID_TRANSACTION_ID"
name receipt_not_found = "RECEIPT_NOT_FOUND"
name record_not_found = "RECORD_NOT_FOUND"
name success = "SUCCESS"
name key_required = "KEY_REQUIRED"
name bad_encoding = "BAD_ENCODING"
name insufficient_account_balance = "INSUFFICIENT_ACCOUNT_BALANCE"
name contract_revert_executed = "CONTRACT_REVERT_EXECUTED"
name contract_execution_exception = "CONTRACT_EXECUTION_EXCEPTION"
name invalid_account_amounts = "INVALID_ACCOUNT_AMOUNTS"
name invalid_transaction_body = "INVALID_TRANSACTION_BODY"
name account_deleted = "ACCOUNT_DELETED"
name account_repeated_in_account_amounts = "ACCOUNT_REPEATED_IN_ACCOUNT_AMOUNTS"
name invalid_topic_id = "INVALID_TOPIC_ID"
name invalid_topic_message = "INVALID_TOPIC_MESSAGE"
name payer_account_deleted = "PAYER_ACCOUNT_DELETED"
name invalid_transfer_account_id = "INVALID_TRANSFER_ACCOUNT_ID"
name alias_already_assigned = "ALIAS_ALREADY_ASSIGNED"
