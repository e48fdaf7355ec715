-- ===== src/Lib.antt =====
-- Zorynex Provable AI records each decision of a model as a proof: a document that is hashed in a
-- canonical form, signed, and chained by hashes to the proof before it, so that anyone can verify
-- a chain of proofs offline. This library models the parts of the package that make this true.
--
-- The parts, each with its files:
--   Base       shared names, Boolean tests on numbers, lists, results (Result) and options
--   Dict       dicts with str keys
--   Text       str and bytes as lists of code points and byte values; hexadecimal (Text/Hex),
--              decimal numerals (Text/Decimal), int (Text/Int), sorted lists of texts (Text/Sorted)
--   Json       Python values and json.dumps with sorted keys; UTF-8 (Json/Utf8), json.dumps and
--              encode with every exception that they raise (Json/Encode, Json/Surrogates),
--              ensure_ascii (Json/Ascii), the default separators (Json/Spaced), and get on a
--              dict (Json/Lookup)
--   Crypto     SHA-256 and the Ed25519 test, as a record of parameters; a small instance of it for
--              the tests (Crypto/Toy)
--   Canonical  provable_ai/canonical.py: validate_payload, validate_hash_payload, canonical_encode,
--              canonical_hash, build_hash_payload, genesis_hash, is_valid_hash
--   Schema     provable_ai/schema.py: the models of a proof, their validators, to_hash_payload and
--              to_sign_bytes
--   Verifier   provable_ai/verifier.py: verify_proof in its steps (verify_model, verify_signed,
--              verify_links), verify_chain with its loop verify_rest, compute_system_root
--   Storage    provable_ai/storage.py: the tables, append_ledger_entry and what it calls, the
--              queries of the ledger (Storage/Queries); Storage/Approvals has the approved models,
--              agents and policies
--   Signer     provable_ai/signer.py: the contract of BaseSigner, as a record with laws, and a small
--              instance of it for the tests (Signer/Toy)
--   Engine     provable_ai/engine.py: GovernanceEngine.record_decision in its steps, on the storage,
--              the validators and the signer; reading proofs back and export_proof
--              (Engine/Export), protocols and instances (Engine/Lifecycle)
--   Package    verify/verify_package.py: verify_package in its checks, on a package as loaded JSON,
--              tools/offline_verify.py (Package/Offline) and verify/verify_signature.py
--              (Package/Signature)
--   Merkle     provable_ai/audit_batch.py: build_merkle_tree, merkle_root,
--              compute_inclusion_proof and verify_inclusion_proof
--   Batch      provable_ai/audit_batch.py: build_batch_export, and verify_batch_signature
--              (Batch/Verify), with verify/verify_batch.py: build_merkle_root and verify_batch
--   AuditLog   provable_ai/audit_log.py: record_event is record from the hash chain on,
--              verify_audit and walk are verify_chain, compute_audit_leaf
--   KeyRegistry  provable_ai/audit_keyregistry.py: the calls that register and rotate keys,
--              was_active_at, and verify_registry for verify_chain
--   Failover   provable_ai/signer_failover.py: sign_hash, the health probe, and the forced switches
--   Pii        provable_ai/pii.py: scrub_inputs, and violations for assert_no_pii
--   Drift      provable_ai/drift_detector.py: take_snapshot before it anchors, and compare
--   Auth       server/auth.py: the keys of the environment variable, and who gets through
--   Webhook    server/webhook.py: sign_webhook, verify_webhook_request in its steps, and the store of
--              nonces
--   RateLimit  server/rate_limit.py: the sliding windows and the three layers of check
--
-- A function that raises returns a Result or an Option. A method that changes an object takes its
-- state and returns the next one. A database is a record of its tables, with a second copy for
-- what the last commit holds; SQL queries are functions on the rows, and the constraints of a
-- table are tests before an insert. The ledger keeps its newest row first, the audit log and the
-- key registry their oldest.
--
-- Parameters: the functions of Crypto, of which only the sizes of a digest are assumed; what
-- Pydantic reads from a dict before the validators run (Reader); what a call of a signer does, and
-- for the engine the contract of BaseSigner, that its signatures verify; for the webhooks, HMAC
-- under the server's secret; json.loads; what Python writes for a list, a dict or a float in an
-- f-string (repr); the clock. The results on tampering do not assume that SHA-256 has no
-- collisions: they name the two inputs of the program that collide.
--
-- Bounds: numbers are unbounded, as in Python. Times of the rate limiter and of the webhooks are
-- whole nanoseconds. A numeral of n is written with fuel n + 1, more than it has digits. Texts are
-- ASCII where the code asks for letters, digits or blanks: other Unicode digits, which int(s, 16)
-- also reads, are left out. json.dumps is modelled on dicts with str keys. Integers of more than
-- 4300 digits, for which json.dumps raises ValueError, and lone surrogates, which encode refuses,
-- are errors in canonical.py, pii.py, audit_log.py, _hash_raw of engine.py and the verifiers of a
-- package; an INTEGER of the audit log has 64 bits. Elsewhere texts have no lone surrogates, which
-- Pydantic refuses in the fields of a proof, and integers are not too long: json.loads refuses
-- them. The loops of the Merkle tree have the number of leaves as fuel, which a tree of half as
-- many nodes on each level cannot use up.
--
-- Not modelled: the older facade Engine; verify_proof_in_batch; anchors, which are requests over
-- HTTP; reports and SIEM output; the PostgreSQL backend, a second backend of the storage; the
-- server's routes; and logging and metrics.
pub mod Base
pub mod Text
pub mod Dict
pub mod Json
pub mod Crypto
pub mod Canonical
pub mod Schema
pub mod Verifier
pub mod Failover
pub mod RateLimit
pub mod Pii
pub mod Storage
pub mod AuditLog
pub mod KeyRegistry
pub mod Merkle
pub mod Package
pub mod Signer
pub mod Engine
pub mod Batch
pub mod Webhook
pub mod Auth
pub mod Drift
