-- ===== src/Lib.antt =====
-- A model of the message and session core of the private-match protocol scripts, with the theorems
-- that make it correct.
--
-- A session has a coordinator and two Parties. Messages and timer events come in one at a time. A
-- message is checked by its schema and digests, looked up among the accepted records, checked against
-- the context, the registry and the verification materials, applied to the state runner, and chained
-- into the transcript; runner and transcript are committed together. A timer event advances the
-- coordinator's clock in the same way.
--
-- The files, and the code under scripts/ that they are about (validate_messages.py where no file is
-- named):
--   Json, Findings, Phases: JSON values with sorted members, `Finding`, and the closed sets of names.
--   Times: `_parse_time`, `_epoch_microseconds`, and protocol_time.py.
--   Message: the envelope, its types (Kinds) and its JSON form (Wire) with `authentication_input`.
--   Digest: canonicalize_message.py: the value domain and the domain-separated digests; Texts has their
--     hexadecimal form.
--   Keyed, Registry, Materials: dicts, `_unique_index`, `_registry_index`, `_material_index`,
--     `authenticated_subject_parameter`; Duplicates and Requesters have `material_registry_findings` and
--     `requester_fixture_findings`.
--   Semantics: `semantic_message_findings`, with Walks, Bindings and Authority for its parts.
--   Dedup: `DedupRegistry`; `classify` and `cached_response`. Replay
--     and Responses say what a record does later.
--   Transcript: `TranscriptState`; Laws has what an event does to it.
--   Clock: `terminal_budget_disposition` and `authoritative_time_transition` of
--     validate_session_state_machine.py; Ends has sequences of advances.
--   Transitions, Runner: `AbstractStateRunner`. Setup, Evaluation and Consent have, for each type of
--     message, the guards (the `require` calls of the branch, in order) and the effect; Apply has
--     `apply`; Timer has `apply_timer_to_runner`, with Readings, Outcomes and Kept for what it reads,
--     what it does and what that keeps. The other children are proofs: Guards, Branches and Atomic take
--     `apply` apart; Invariant and Preserved, Agreement, Effects and Terminal are what holds of it.
--   Trace: `apply_trace_message_atomically` and `apply_trace_timer_atomically`; Atomic and Timers say
--     what one event does, Sessions and Heads what any sequence of events does.
--   LocalResults: `apply_profile_local_result_fixture`.
--   Machine: the guard functions of validate_session_state_machine.py: Disclosure, Abort, Bindings and
--     Retry, each with a child that says what it decides.
--   Conformance: conformance_common.py (Names, Projection, Digests), conformance_engine.py (Codes,
--     Inputs, Engine, Compare), compare_adapter_result.py (Adapter) and run_conformance.py (Results).
--     Runs, Executed and Unevaluated say what a run does.
--   Pet: pet_profiles.py: Patterns has its regular expressions, Evidence the profile authority and the
--     acknowledgment of one Party.
--   Checks, Texts: lists of checks with their texts, and `sorted(set(...))` of texts.
--   Tests: concrete inputs for the theorems.
--
-- How the code is read:
--   Objects that a schema closes are records, so that the `isinstance` tests and `KeyError`s which
--   the types rule out are not written; payloads are read by name, and a missing member and `null`
--   both read as `null`, as `dict.get` does. There are no JSON floats. A `deepcopy` is the value
--   itself, and a function that changes an object returns the new value. `CanonicalMessageError` is
--   `refused`; an exception that nothing catches is `crashed`. Integers are Python's, over the native
--   numbers. No function here needs fuel: the loops are over lists and JSON values, by structural
--   recursion.
--   Parameters stand for code outside the repository: `Hashing` for hashlib, rfc8785 and
--   Python's `str` and `int` of a value, `Calendar`
--   for datetime, and `Platform` with the errors that jsonschema reports. That SHA-256 gives
--   bytes is a hypothesis where a theorem needs it; no other law is assumed of them.
--   `bounded_error` shortens texts only, and is left out.
--
--   A conformance case comes with its files read: their paths and the digests of their bytes are left
--   out, and a raw message comes with the findings of `validate_message_bytes`. `ConformanceError`
--   and `PetProfileError` are `refused`, with their codes. `str.lower` is a parameter, over code points.
--
-- Not modelled: the validator of the session state machine's YAML file, the documents and the operations
-- of the PET profiles, the checks of the message registry and of the repository, the parsers of bytes
-- (`strict_loads`, YAML), the access to files, the generators and the command lines.
pub mod Prelude
pub mod Checks
pub mod Texts
pub mod Json
pub mod Findings
pub mod Pet
pub mod Phases
pub mod Clock
pub mod Message
pub mod Digest
pub mod Times
pub mod Keyed
pub mod Materials
pub mod Dedup
pub mod Transcript
pub mod Registry
pub mod Transitions
pub mod Runner
pub mod Semantics
pub mod LocalResults
pub mod Machine
pub mod Conformance
pub mod Trace
pub mod Tests
