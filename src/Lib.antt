-- ===== src/Lib.antt =====
-- The runtime of the OpenLinker Python SDK: a worker takes assignments from the platform, runs an
-- Agent's handler for each Attempt, and keeps what it must send, Events and one Result, in a store
-- until the platform acknowledged it.
--
-- Parts and files
--   src/openlinker/runtime/store.py
--     Store/State     the states of an assignment, `_TRANSITIONS`
--     Store/Records   `LocalAttemptIdentity`, `AssignmentRecord`, `EventRecord`, `ResultRecord`,
--                     `_copy_assignment`
--     Store/Codec     `to_dict` and `from_dict` of the records; Store/Codec/RoundTrip has their proofs
--     Store/Seqs, Store/Acks   the window of acknowledged sequences: `_event_acked`,
--                     `_apply_event_ack`
--     Store/Memory, Store/Methods   `MemoryRuntimeStore`, one function per method
--     Store/File, Store/File/Methods   `FileRuntimeStore`: capacity, writes and removals, the poison
--                     flag, and its methods
--     Store/Invariant, Store/Lookups, Store/Preserves, Store/Reach, Store/Sorting, Store/Pending   the
--                     proofs on the store in memory
--     Store/File/Reach, Ready, Sizes, Capacity, Bounded, Refines, Mirror, Mirrored   the proofs on the
--                     store on disk
--   src/openlinker/runtime/types.py
--     Types/Identity  `RuntimeAttemptIdentity` with its JSON form
--     Types/Checks    `_require_keys`, `_require_uuid`, `_require_object`, `_require_capability`,
--                     `validate_idempotency_key`
--     Types/Time      `parse_datetime`, `format_datetime`
--     Types/Features  `normalize_runtime_optional_features`; Types/Features/Normal has its proof
--     Types/Messages  `RuntimeAssignment`, `RuntimeReady`, `RuntimeCommand`, `runtime_hello`,
--                     `RuntimeEvent.validate`; Types/Messages/Echo has the proof on hello and ready
--     Types/Runs      `validate_runtime_run_summary`, `validate_delegated_run`,
--                     `validate_runtime_drain_payload`, `build_invocation_proof`; Types/Runs/States has
--                     the proofs
--     Types/Uuid      `_require_uuid`, `deterministic_uuid`, and `_token_scoped_runtime_node_id` of
--                     worker.py; Types/Uuid/Valid has their proof
--     Errors          the exceptions
--   src/openlinker/runtime/worker.py
--     Worker/Ranges   `_event_ranges`; Worker/Ranges/Resend has its proof
--     Worker/Attempts what the worker keeps of its Attempts, `_start_confirmed_attempt`,
--                     `_revoke_attempt`, `_finalize_revoked_attempt`, `_clear_from_resume`; the
--                     proofs are in Worker/Attempts/Revoke and Gone
--     Worker/Flush    `_validate_event_ack`, and what the loop on Events of `_flush_attempt_spool`
--                     does to the store where nothing else runs; Worker/Flush/Safe has its proofs
--     Worker/Answers  the checks of the platform's other answers
--     Worker/Assign   `_handle_assignment`, `_reject_assignment`, `_retry_assignment_operation`,
--                     `_converge_assignment_terminal_error`
--     Worker/Deliver  `_flush_attempt_spool` with its one repair, `_replay_events` and
--                     `_flush_spool`; Worker/Deliver/Settles has the proof
--     Worker/Resume   `_resume_durable_state`
--     Worker/Commands `_handle_command`, `_handle_cancel`, `_ack_cancel`, and a turn of
--                     `_renew_lease_loop`
--     Worker/Outcomes `_normalize_result`, `_result_payload`, `_bounded`, `_persist_event`,
--                     `RuntimeContext.emit` and the end of `_execute_attempt`; Worker/Outcomes/Form and
--                     Kept have the proofs on the Result
--     Worker/Keeps    what these handlers keep, for any predicate that their smallest changes keep
--     Worker/Steps    the handlers as steps in any order; Worker/Steps/Sound and Stopped have the
--                     theorems
--     Worker/Retry    `_retry_call` and `_retry_delay`; Worker/Retry/Ends and Delays have the proofs
--     Worker/Policy   policy signals, fatal errors, fallback reasons, `runtime_policy_recover_once`
--   src/openlinker/webhook.py
--     Webhook         every function; Webhook/Signed has the proofs
--   Shared: Prelude, Dict (Python's dict), Text (str), Json (JSON values, and str and int of them),
--   Exec (methods that change an object and may raise), Platform, Examples.
--
-- How the code is read
--   A method that changes an object takes it and returns a result beside the object that it leaves,
--   also where it raises. Awaits are in the order of the code, those of answers and those of the lock
--   of an Attempt: what the other tasks do to the worker at each of them (`Wait` in Worker/Attempts)
--   is an argument of the handler, since the lock of an Attempt keeps away only those that take it.
--   Between two awaits nothing else runs. A method of a store runs under the store's own lock and is
--   one step.
--   The worker keeps its records in a `MemoryRuntimeStore`, as one that is given such a store does. The
--   default is a `FileRuntimeStore`: a write of it that raises, and its own `store_result`, are part of
--   the theorems on that store and of none on the worker.
--   New identifiers and the times that a method draws are its arguments, and a time is a number.
--   A dict is the list of its items in insertion order. A `FileRuntimeStore` calls the methods of its
--   base class with its own `_ready`, so the methods take `ready` as an argument.
--   `hashlib`, `hmac`, `base64`, `json.dumps`, `repr` and the text form of times are fields of
--   `Platform`; of a digest only the length and the range of its bytes are used, of times that the
--   text of one is read as that time. Of a disk, `Device` gives the length of each envelope, the
--   outcome of each use and the free space.
--   What the platform answers to a call, after the retries of `_retry_call`, is an argument of the
--   handler.
--   `_retry_call` meets turns, one after the other, that say what the flags, the transport, the
--   answer, the clock and the worker's `retry_minimum` and `retry_maximum` are, which a recovery of
--   the policy may change; delays are counted in tenths of the unit of these two, and floats are
--   taken as exact; it has fuel, one for each turn, and returns when the fuel is more than the turns
--   before one that finds the deadline past.
--   The loop of `_apply_event_ack` runs on fuel, the number of the sequences kept out of order, of
--   which each turn removes one; the digits of a number have the number itself as fuel.
--
-- Not modelled
--   Floats in JSON, encryption, file modes and the process lock, HTTP and WebSocket clients, the
--   loops of the worker around its handlers, drain, Runtime authority and configuration, the loading
--   of files, the A2A client, registration and credentials. The metadata, the callbacks and the log
--   of a worker do not change its state. Integers that validation refuses below 1 are natural
--   numbers. `int` of a text reads ASCII digits, and `str.lower` changes ASCII letters only: none of
--   the others gives a hexadecimal digit, and HTTP has none in a header's name.
mod Prelude
pub mod Dict
pub mod Text
pub mod Json
pub mod Platform
pub mod Errors
pub mod Exec
pub mod Types
pub mod Store
pub mod Worker
pub mod Webhook
pub mod Examples
