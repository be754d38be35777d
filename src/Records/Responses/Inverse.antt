-- ===== src/Records/Responses/Inverse.antt =====
-- The response codes read back.
use Prim.Native.String.{String}
use text.Mathlib.Text.{◌==◌ as str_eq}
use hanvil.Prelude.{ℕ, ◌≡◌, refl, Option, none, some, ◌==◌, if◌then◌else◌}
use hanvil.Records.Responses.{Status, code, name}

-- The status with a number, if there is one.
of_code : ℕ → Option Status
of_code n =
    if n == 0
    then some Status.ok
    else if n == 1
    then some Status.invalid_transaction
    else if n == 2
    then some Status.payer_account_not_found
    else if n == 3
    then some Status.invalid_node_account
    else if n == 4
    then some Status.transaction_expired
    else if n == 5
    then some Status.invalid_transaction_start
    else if n == 6
    then some Status.invalid_transaction_duration
    else if n == 7
    then some Status.invalid_signature
    else if n == 8
    then some Status.memo_too_long
    else if n == 10
    then some Status.insufficient_payer_balance
    else if n == 11
    then some Status.duplicate_transaction
    else if n == 13
    then some Status.not_supported
    else if n == 15
    then some Status.invalid_account_id
    else if n == 16
    then some Status.invalid_contract_id
    else if n == 64
    then some Status.transaction_oversize
    else if n == 17
    then some Status.invalid_transaction_id
    else if n == 18
    then some Status.receipt_not_found
    else if n == 19
    then some Status.record_not_found
    else if n == 22
    then some Status.success
    else if n == 26
    then some Status.key_required
    else if n == 27
    then some Status.bad_encoding
    else if n == 28
    then some Status.insufficient_account_balance
    else if n == 33
    then some Status.contract_revert_executed
    else if n == 34
    then some Status.contract_execution_exception
    else if n == 48
    then some Status.invalid_account_amounts
    else if n == 50
    then some Status.invalid_transaction_body
    else if n == 72
    then some Status.account_deleted
    else if n == 74
    then some Status.account_repeated_in_account_amounts
    else if n == 150
    then some Status.invalid_topic_id
    else if n == 158
    then some Status.invalid_topic_message
    else if n == 256
    then some Status.payer_account_deleted
    else if n == 285
    then some Status.invalid_transfer_account_id
    else if n == 332
    then some Status.alias_already_assigned
    else none

-- The status with a name, if there is one.
of_name : String → Option Status
of_name s =
    if str_eq s "OK"
    then some Status.ok
    else if str_eq s "INVALID_TRANSACTION"
    then some Status.invalid_transaction
    else if str_eq s "PAYER_ACCOUNT_NOT_FOUND"
    then some Status.payer_account_not_found
    else if str_eq s "INVALID_NODE_ACCOUNT"
    then some Status.invalid_node_account
    else if str_eq s "TRANSACTION_EXPIRED"
    then some Status.transaction_expired
    else if str_eq s "INVALID_TRANSACTION_START"
    then some Status.invalid_transaction_start
    else if str_eq s "INVALID_TRANSACTION_DURATION"
    then some Status.invalid_transaction_duration
    else if str_eq s "INVALID_SIGNATURE"
    then some Status.invalid_signature
    else if str_eq s "MEMO_TOO_LONG"
    then some Status.memo_too_long
    else if str_eq s "INSUFFICIENT_PAYER_BALANCE"
    then some Status.insufficient_payer_balance
    else if str_eq s "DUPLICATE_TRANSACTION"
    then some Status.duplicate_transaction
    else if str_eq s "NOT_SUPPORTED"
    then some Status.not_supported
    else if str_eq s "INVALID_ACCOUNT_ID"
    then some Status.invalid_account_id
    else if str_eq s "INVALID_CONTRACT_ID"
    then some Status.invalid_contract_id
    else if str_eq s "TRANSACTION_OVERSIZE"
    then some Status.transaction_oversize
    else if str_eq s "INVALID_TRANSACTION_ID"
    then some Status.invalid_transaction_id
    else if str_eq s "RECEIPT_NOT_FOUND"
    then some Status.receipt_not_found
    else if str_eq s "RECORD_NOT_FOUND"
    then some Status.record_not_found
    else if str_eq s "SUCCESS"
    then some Status.success
    else if str_eq s "KEY_REQUIRED"
    then some Status.key_required
    else if str_eq s "BAD_ENCODING"
    then some Status.bad_encoding
    else if str_eq s "INSUFFICIENT_ACCOUNT_BALANCE"
    then some Status.insufficient_account_balance
    else if str_eq s "CONTRACT_REVERT_EXECUTED"
    then some Status.contract_revert_executed
    else if str_eq s "CONTRACT_EXECUTION_EXCEPTION"
    then some Status.contract_execution_exception
    else if str_eq s "INVALID_ACCOUNT_AMOUNTS"
    then some Status.invalid_account_amounts
    else if str_eq s "INVALID_TRANSACTION_BODY"
    then some Status.invalid_transaction_body
    else if str_eq s "ACCOUNT_DELETED"
    then some Status.account_deleted
    else if str_eq s "ACCOUNT_REPEATED_IN_ACCOUNT_AMOUNTS"
    then some Status.account_repeated_in_account_amounts
    else if str_eq s "INVALID_TOPIC_ID"
    then some Status.invalid_topic_id
    else if str_eq s "INVALID_TOPIC_MESSAGE"
    then some Status.invalid_topic_message
    else if str_eq s "PAYER_ACCOUNT_DELETED"
    then some Status.payer_account_deleted
    else if str_eq s "INVALID_TRANSFER_ACCOUNT_ID"
    then some Status.invalid_transfer_account_id
    else if str_eq s "ALIAS_ALREADY_ASSIGNED"
    then some Status.alias_already_assigned
    else none

of_code-code : (s : Status) → of_code (code s) ≡ some s
unfolding of_code code
of_code-code Status.ok = refl
of_code-code Status.invalid_transaction = refl
of_code-code Status.payer_account_not_found = refl
of_code-code Status.invalid_node_account = refl
of_code-code Status.transaction_expired = refl
of_code-code Status.invalid_transaction_start = refl
of_code-code Status.invalid_transaction_duration = refl
of_code-code Status.invalid_signature = refl
of_code-code Status.memo_too_long = refl
of_code-code Status.insufficient_payer_balance = refl
of_code-code Status.duplicate_transaction = refl
of_code-code Status.not_supported = refl
of_code-code Status.invalid_account_id = refl
of_code-code Status.invalid_contract_id = refl
of_code-code Status.transaction_oversize = refl
of_code-code Status.invalid_transaction_id = refl
of_code-code Status.receipt_not_found = refl
of_code-code Status.record_not_found = refl
of_code-code Status.success = refl
of_code-code Status.key_required = refl
of_code-code Status.bad_encoding = refl
of_code-code Status.insufficient_account_balance = refl
of_code-code Status.contract_revert_executed = refl
of_code-code Status.contract_execution_exception = refl
of_code-code Status.invalid_account_amounts = refl
of_code-code Status.invalid_transaction_body = refl
of_code-code Status.account_deleted = refl
of_code-code Status.account_repeated_in_account_amounts = refl
of_code-code Status.invalid_topic_id = refl
of_code-code Status.invalid_topic_message = refl
of_code-code Status.payer_account_deleted = refl
of_code-code Status.invalid_transfer_account_id = refl
of_code-code Status.alias_already_assigned = refl

of_name-name : (s : Status) → of_name (name s) ≡ some s
unfolding of_name name
of_name-name Status.ok = refl
of_name-name Status.invalid_transaction = refl
of_name-name Status.payer_account_not_found = refl
of_name-name Status.invalid_node_account = refl
of_name-name Status.transaction_expired = refl
of_name-name Status.invalid_transaction_start = refl
of_name-name Status.invalid_transaction_duration = refl
of_name-name Status.invalid_signature = refl
of_name-name Status.memo_too_long = refl
of_name-name Status.insufficient_payer_balance = refl
of_name-name Status.duplicate_transaction = refl
of_name-name Status.not_supported = refl
of_name-name Status.invalid_account_id = refl
of_name-name Status.invalid_contract_id = refl
of_name-name Status.transaction_oversize = refl
of_name-name Status.invalid_transaction_id = refl
of_name-name Status.receipt_not_found = refl
of_name-name Status.record_not_found = refl
of_name-name Status.success = refl
of_name-name Status.key_required = refl
of_name-name Status.bad_encoding = refl
of_name-name Status.insufficient_account_balance = refl
of_name-name Status.contract_revert_executed = refl
of_name-name Status.contract_execution_exception = refl
of_name-name Status.invalid_account_amounts = refl
of_name-name Status.invalid_transaction_body = refl
of_name-name Status.account_deleted = refl
of_name-name Status.account_repeated_in_account_amounts = refl
of_name-name Status.invalid_topic_id = refl
of_name-name Status.invalid_topic_message = refl
of_name-name Status.payer_account_deleted = refl
of_name-name Status.invalid_transfer_account_id = refl
of_name-name Status.alias_already_assigned = refl

-- No two statuses share a protocol number.
code_injective : (a b : Status) → code a ≡ code b → a ≡ b
code_injective a b e = cc (of_code-code a, of_code-code b)

-- No two statuses share a protocol name.
name_injective : (a b : Status) → name a ≡ name b → a ≡ b
name_injective a b e = cc (of_name-name a, of_name-name b)
