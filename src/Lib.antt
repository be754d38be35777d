-- ===== src/Lib.antt =====
-- hanvil is a local Hedera network in one process. This library models the state of that network
-- and what changes it: its first state, HAPI transactions, EVM transactions, time, filters,
-- snapshots and cheats, the prechecks between a submitted envelope and the state, and the JSON-RPC
-- methods; and of the agent harness that drives the network, the parts that are plain functions.
--
-- The program's parts and the files that model them:
--   Units       src/evm/units.rs: tinybar, weibar and hbar, and long-zero addresses
--   Time        src/state/time.rs: timestamps, their successor and their order
--   Accounts    src/state/accounts.rs: entity ids, keys and accounts
--   Blocks      src/state/blocks.rs: blocks, transactions, receipts, logs, and `LogFilter::matches`
--   Records     src/state/hapi.rs: transactions, records, topics, refusals, and (Records/Responses)
--               the response codes with `Status::code` and `Status::name`
--   Keys        src/keys/mod.rs and src/keys/predefined.rs: the predefined keys and their accounts
--   Evm         src/evm/mod.rs: `decode_signed`, `execute` and the mapping of revm's errors, and
--               (Evm/Reverts) `revert_stub` and `revert_reason`; Evm/Reverts/Machine is a
--               reference interpreter of the instructions that a stub has
--   Chain       src/state/mod.rs, the struct `Chain` and its operations, by subject:
--                 Clock      block timestamps, the cheats on time, consensus timestamps
--                 Seal       `seal_block` and `mine_empty`
--                 Refusals   `reject`
--                 Transfers  `adjust`, `move_tinybar`, `aggregate` and `apply_transfer`
--                 Filters    `logs` and the installed filters
--                 Snapshots  `snapshot` and `revert`
--                 Cheats     `set_balance`, `set_code`, `set_nonce`, `set_storage`, impersonation
--                 Execution  `send_raw`, `send_unsigned`, `execute_and_mine` and both syncs with revm
--                 Apply      `apply_hapi` and `apply_body`
--                 Calls      `call`, `estimate_gas` and the reads by address
--                 Genesis    `genesis`, `etch` and `reindex`
--                 Journal    the blocks and records that an operation keeps, for the proofs
--                 Supply     the sum of balances and the soundness of a chain, for the proofs
--   Wire        src/hapi/wire.rs: the readers of protobuf messages and `decode_body`;
--                 Signatures `required_keys`, `signature_pairs`, and `signed_by` of src/keys/sig.rs
--                 Precheck   `submit`, `identify` and `precheck_and_apply`
--   History     the requests that change a node's chain, one after the other, each by its operation
--               above, with restarts, snapshots, reverts, polls and calls among them
--   Text        the operations of `str` that the harness and the mirror API use
--   Mirror      src/mirror/shapes.rs and mod.rs: transaction ids and entity ids of the mirror API;
--                 Params     timestamp clauses, the query parameters and `page`
--   Rpc         src/rpc: JSON values and the texts of types.rs;
--                 Errors     mod.rs: `RpcError`, and the texts of the errors it is made of
--                 Params     types.rs: the readers of parameters
--                 Objects    types.rs: blocks, transactions, receipts and logs as JSON
--                 Eth        eth.rs: `call`, with its reads (Reads), the table of its methods (Methods)
--                            and both sends with `refused` (Sending)
--                 Cheats     cheats.rs: `handles` and `call`, with `mine_params` (Mining)
--                 Dispatch   mod.rs: `dispatch`, batches and the answers
--   Harness     the agent harness, in src/harness:
--                 Findings   findings.rs: the findings of an attempt against those of the one before
--                 Verdicts   evaluate.rs: `balanced_json_objects` and `matching_brace`
--                 Ledger     ledger.rs: `Ledger::since` and `Ledger::counts`, and `Mark` of chain.rs;
--                            (Ledger/Repeats) `repeated_from`
--                 Signer     chain.rs: `unique_tx_id`, `operator_transaction`, `sweep` and
--                            `parse_entity_id`
--                 Stages     attempt.rs: the order of an attempt's stages; `select_model` of agent.rs
--                 Attempts   attempt.rs: the repair loop `run_loop`
--   Tests       runs on sample values
--
-- A submission goes from Wire.Precheck to Chain.Apply, which moves tinybar with Chain.Transfers
-- and, for an Ethereum body, calls Chain.Execution; that one mines with Chain.Seal at a time of
-- Chain.Clock. A JSON-RPC request goes from Rpc.Dispatch to Rpc.Eth or Rpc.Cheats, whose methods
-- are those of Chain. The harness takes a mark and a snapshot of the chain before an attempt, reads
-- the ledger since the mark after it, and sends its own transactions straight to Chain.Apply.
--
-- How it is modelled. A `&mut self` method is a function from a state to a state and its answer;
-- the wall clock is an argument, as in the source. The struct `Chain` is `ChainState`, all fields
-- but the snapshots, with `Chain` around it. A u64 is a number, with its wrap-around written as `%
-- 2 ^ 64`; an i64 is an integer, with `as i64` written out. A `BTreeMap` is a list in the order of
-- its keys, and a `HashMap`, which the program does not iterate over, a list of entries with the
-- newest first. A string is the list of its bytes, and in the harness of its characters; an
-- address, a B256 and a U256 are numbers. A `Result` is an `ok` or an `err`. Most loops are
-- structural. The three that are not run on fuel, with `none` for running out, and it is proved
-- that they do not: `estimate_gas` on one unit more than its interval is wide, `unique_tx_id` on
-- one more than there are ids, `run_loop` on one more than there are attempts. `pad` writes at most
-- 31 zeros of its 32, and a u64 has at most 20 of the digits of `decimal`. What panics in the
-- source is a value of its own (`panics`, `Panic`).
--
-- Third-party code is a parameter: `Externals` for revm, alloy and the digests, `Protobuf` for
-- prost, `Curves` and `KeyCurves` for k256, ed25519-dalek and hex, `Formats` for the text formats
-- of alloy, hex, ruint and floats, and functions for the lossy reading of UTF-8 and the text of an
-- address. No law is assumed of any of them, but that one theorem on `estimate_gas` is about a
-- machine on which read-only calls leave no trace, and that two on JSON-RPC suppose a parser that
-- reads hexadecimal digits as their number. The body of a JSON-RPC request is given as parsed, too
-- large or unreadable, since serde_json and axum are not the program's; each request of a batch has
-- a time of its own, since the clock is asked for each. The stages of an attempt are a parameter,
-- `Stages`: any functions on the chain, since they run an agent, commands and a browser against it;
-- one theorem supposes that they revert to no snapshot older than the attempt. The steps of the loop
-- between its stages (the prompts and the files that are written, the log, the state dump, the
-- commits, the agent's provider) are functions of that parameter that may read the chain and may
-- fail, and that leave the chain alone. A prompt is kept as what it is built from. The bodies of
-- `apply_body` return their errors before their first write, so an error carries no state in the
-- model; this is read off the source and not shown. A request that panics, or an estimate that does not end, has no answer.
--
-- Not modelled: the JSON form of the state, some reads that only the mirror API uses, the gRPC
-- server, the mirror server but for its ids and query strings, the command line, and of the harness
-- what drives processes, git, files and agents: the inside of an attempt's stages, recipes, the
-- text of prompts, the watcher, the files and the log that a run writes.
pub mod Prelude
pub mod Word
pub mod Maps
pub mod Units
pub mod Time
pub mod Accounts
pub mod Keys
pub mod History
pub mod Text
pub mod Harness
pub mod Mirror
pub mod Blocks
pub mod Records
pub mod Evm
pub mod Chain
pub mod Wire
pub mod Tests
pub mod Rpc
