-- ===== src/Lib.antt =====
-- loomground-lock: the middleware that stands between an agent and what it sends or receives.
--
-- The package checks tool calls on their way out (egress), responses on their way in (ingress) and
-- texts before they leave (lock_text). Each lock collects findings from tiers of detectors and then
-- decides by its mode. Tier A compares names of fields with the scope of the task; Tier B looks for
-- patterns of personal data; Tier B+ does so behind lookalike characters; Tier C asks the host's
-- semantic check, or the built-in one, and for terms of the context; Tier M moderates by rules. A
-- capability token is validated with each call. Around the locks stand the registry of the host's
-- hooks, the store of a person's decisions, the dial of oversight, the mapping to verdicts, and the
-- resolver of credentials. A folder's memory can be sealed: encrypted into one blob with its
-- plaintext removed, unsealed again, or served from memory after an unlock. A pair of knowledge is
-- classified when it is ingested: the texts of its triples and facets pass the lock once, and a
-- clean block is kept with it.
--
-- Files and code (paths below src/loomground_lock):
--   Text, Value             Python's str and JSON-like values, as far as the package uses them;
--                           Text/Regex is an engine for the patterns, by continuations: it tries
--                           alternatives and repetitions in the order of Python's re
--   HostDeps                host_deps.py: the hooks, register, clear, ensure_wired
--   Core/Data               core.py: Mode, Finding, calls, responses, tokens, decisions
--   Core/Luhn, Patterns     core.py: _luhn_ok, _cc_search, the table _TIER_B_PATTERNS
--   Core/Redact             core.py: _redact_for_label, _redact_text_with_regex; Redact/Capture is
--                           redact_for_capture
--   Core/TierA, TierB       core.py: tier_a_check_*, tier_b_scan_*, _build_remediation_actions
--   Core/Token              core.py: validate_token, _verify_capability_signature
--   Core/Egress, Ingress    core.py: egress, ingress and their decisions
--   Core/Fold, TextLock     core.py: _ascii_fold, _detect_confusable_bypass, lock_text
--   Core/TierC              core.py: _tier_c and its parts; TierCDefault is tier_c_default.py
--   Core/Ensemble           core.py: tier_c_semantic_check, several models that must agree
--   Core/Audit              core.py: AuditLog, and the locks with the entry that they leave
--   TierM                   tier_m.py
--   Decisions               decisions.py: recall, remember, load and the file behind them;
--                           DecisionFile is StoredDecision with to_jsonl and from_dict, and the lines
--                           of the file; DecisionErasure is erase, erase_subject, _rewrite_previews
--   Oversight, Verdicts     oversight.py, verdicts.py
--   Credentials             credential_resolver.py
--   InjectionScan           injection_scan.py
--   ScannedResponse         scanned_response.py
--   Seal                    seal.py: Disk is the part of the disk that a seal touches and the writes
--                           and removals on it, Envelope the blob, Folder the seal and the unseal,
--                           ReadThrough the reads of a sealed folder
--   LockClassify            lock_classify.py: Scrub is _lock_string and the loops over facets and
--                           triples, Triples the raw triples, Pair
--                           lock_classify_pair, Pair/Reclassify the run over a memory
--   Binding                 seal_binding.py: Wall is the session of keys and the served reads, Pairs
--                           the events and pairs read from them
-- The other files, such as Laws, Cards, Recall, Persist, Seal/RoundTrip, Seal/Crash and
-- Binding/Wall/Origin, hold the proofs, Tests the runs at concrete inputs.
--
-- A text is the list of its code points. Python's Unicode tables (lower case, normal forms, word
-- characters, digits) are the parameter Unicode, with the ASCII instance for runs. Hooks, clocks,
-- environment variables, files, JSON and cryptography are parameters: what a call of them returns
-- or raises. A confidence is in hundredths. A dict is its entries in insertion order, a set the
-- list of its members; where the code sorts a set, the model sorts it.
--
-- Loops are structural recursion. A repetition of the regex engine and the search of `sub` run on
-- fuel that is the length of the text, of which every round consumes one character or ends; the
-- replacement of card numbers runs on the length of the text too, since each of its rounds takes
-- thirteen digits or more away and adds none.
--
-- A stored decision goes to the file as the object of to_jsonl and comes back by from_dict. What a
-- reader finds where an object was written (json.dumps, splitlines, strip and json.loads together)
-- is a parameter: JSON leaves U+0085, U+2028 and U+2029 as they are and the reader splits lines
-- there, so that a law for it is asked only of objects without them. A file ends with a newline,
-- and a line that is JSON but no object makes from_dict raise, so that no store is built.
--
-- A seal and an unseal are lists of writes and removals on the disk, each of which succeeds, so
-- that a crash is a prefix of such a list; removing a directory is removing its files one by one. A
-- directory is the files below it, in the order in which they are listed (the source sorts the
-- paths), and an entry of a folder that holds knowledge is a directory of files. A path of a
-- manifest is taken to stay below the directory it starts from: what a ".." or an absolute path
-- would reach is not modelled, and the result that depends on it asks for paths that stay. Salts
-- and nonces are arguments. Seal/Reliable says what the proofs ask of base64, JSON and AES-GCM:
-- that they undo what they do, and that AES-GCM decrypts only what was encrypted with its key and
-- associated data. The tests show one set of primitives that has these laws.
--
-- Not modelled: file modes, the advisory lock that a seal takes against appends, the choice of the
-- memory port in lock_classify.py, the digest that identifies a finding, CapabilityToken.from_dict
-- and sign, and __init__.py, which only passes names on.
pub mod Prelude
pub mod Text
pub mod Value
pub mod HostDeps
pub mod Core
pub mod TierCDefault
pub mod TierM
pub mod DecisionErasure
pub mod DecisionFile
pub mod Decisions
pub mod Oversight
pub mod Verdicts
pub mod Credentials
pub mod InjectionScan
pub mod ScannedResponse
pub mod Seal
pub mod Binding
pub mod LockClassify
pub mod Tests
