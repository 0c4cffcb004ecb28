-- ===== src/Lib.antt =====
-- SecureFlow keeps the evidence of a security review in documents, and refuses a document whose parts
-- do not fit together. This library models the three crates that define those documents and the
-- operations on them, the scope of a web review, and the trust store that decides which signed
-- catalog of advisories may be installed.
--
-- The parts, and how they interact:
--
-- - crates/secureflow-model: a run manifest, that is, one run of an engine on an authorized target with
--   its findings, the human review of each, the record of an AI advisory, a summary, and the phases of
--   the run. `RunManifest::validate` checks all of it; `prioritize_findings` and
--   `deduplicate_findings` order and thin the findings; `refresh_summary` recomputes the counters.
-- - crates/secureflow-orchestrator: `derive_plan` reads a valid manifest and hashes of evidence, and
--   derives seven phases, the next action and the claim that may be made; `validate` and `parse_plan`
--   check a plan that comes from outside.
-- - crates/secureflow-case: a security case with sources, evidence, candidates, staged recommendations
--   and human decisions; `add_human_decision` and `import_sarif` change it.
-- - crates/secureflow-web/src/scope.rs: the scope of a web review, which says what may be read and until
--   when; `seal_scope` makes one from a draft, `parse_scope` and `validate_at` check it.
-- - crates/secureflow-knowledge/src/catalog_trust: a store on disk with an enrolled policy, a lineage
--   of signed roots, the last document of each role, and a floor for each profile. A session loads it
--   (`Session::open`), imports signed documents (`import_roots`, `import_metadata`, `import`),
--   verifies or installs a catalog (`verify`, `install`), and recovers an installation that broke off
--   (`recover`). The strict readers of wire.rs stand between the bytes and all of it.
--
-- The files, by the code that they model:
--
-- - Prelude: what the modules share: tests of numbers (Prelude/Tests), lists (Prelude/Lists), `Result`
--   with the `?` operator as bind and the shapes of validating loops (Prelude/Fallible), and `sort_by`
--   with its laws (Prelude/Sorting).
-- - Text: `str` as its list of UTF-8 bytes, with what the code uses of the standard library: `chars`,
--   `trim`, `is_control` (Text/Chars), the order of strings (Text/Compare), `format!` of numbers and
--   hexadecimal digits (Text/Format), `Path::components` and `split('/')` (Text/Paths).
-- - Run: crates/secureflow-model/src/lib.rs. Run/Kinds has the enumerations, Run/Fields the checks of
--   single fields, Run/Target, Run/Engine, Run/Location, Run/Review, Run/Ai, Run/Finding, Run/Summary
--   and Run/Evaluation one record each with its `validate` (named `validate_target` and so on),
--   Run/Unique the loops with a `BTreeSet`, Run/Manifest the manifest, Run/Ordering and Run/Dedup the
--   two operations on findings.
-- - Orchestrator: crates/secureflow-orchestrator/src/lib.rs. Orchestrator/Types has the data,
--   Orchestrator/Expected what `validate_derived_state` expects, Orchestrator/Validate the
--   method `validate`, one function for each of its tests, and `parse_plan`,
--   Orchestrator/Derive the function `derive_plan`.
-- - Case: crates/secureflow-case/src/lib.rs. Case/Types has the data, Case/Fields the checks of
--   fields, Case/Validate the method `validate`, one function for each of its loops, Case/Decide the
--   method `add_human_decision`, Case/Sarif the function `import_sarif`.
-- - Scope: crates/secureflow-web/src/scope.rs. Scope/Types has the data, Scope/Addresses the tests of DNS
--   names and IP addresses, Scope/Validate the methods, Scope/Seal `seal_scope` and `parse_scope`.
-- - Trust: crates/secureflow-knowledge/src/catalog_trust. Trust/Json has the strict JSON reader of wire.rs,
--   Trust/Wire its envelopes and Trust/Wire/Keys its root profile and `strict_signers`; Trust/Types and
--   Trust/Policy the documents of types.rs with their `validate`; Trust/Checks, Trust/Examine,
--   Trust/Session and Trust/Import the session of consumer.rs: what only reads, the tests of a
--   document, `save` and `retain_role`, `import_roots` (Import/Roots), the loops over targets
--   (Import/Targets) and `import_metadata`; Trust/Receipts and Trust/Install the file install.rs;
--   Trust/Store `load_state` and, of mod.rs, `initialize` and `enroll`; Trust/Operations `Session::open`,
--   `Session::import` and `Clock::capture`; Trust/History the sequences of operations on one store;
--   Trust/Map the `BTreeMap` of strings, Trust/Errors the error codes.
-- - Tests: sample documents, and the theorems at them.
--
-- How the code is rendered: a method that returns `Result<(), E>` is a function into `Checked`. A method
-- that takes `&mut self` and may fail returns the result together with the state that it leaves, also
-- on an error. A `BTreeSet` that a loop fills is the list of its members. Field names are those of the
-- source; a constructor is the variant in snake case.
--
-- Numbers: counts and positions are natural numbers. The sums of `u64` that the code does not check are
-- taken modulo 2 ^ 64, as in a release build. A decimal numeral is written with at most 20 digits, which
-- is enough for a `u64`. There is no other bound: all loops run over
-- lists, but for the groups of an IPv6 address, of which there are at most 8.
--
-- The trust store: a `Session` holds the state in memory, what state.json, the receipts and the outputs
-- hold on disk, and the outcomes of the writes to come (`writes`), each of which is done, refused, or
-- done but reported as failed. So a crash or a full disk at any write is one of the runs that a theorem
-- ranges over. A checkpoint is a function that may fail. A `Directory` is what a directory of metadata
-- shows to one import. An error is its code; the messages are left out.
--
-- What is a parameter: the parser of RFC 3339 texts and the clock of the `time` crate, SHA-256 (32 bytes
-- where a theorem needs it), and reading and writing of JSON by `serde_json`. A text that `parse` reads
-- is an instant, counted from the earliest one. For the trust store also: the Ed25519 keys and
-- signatures of ed25519_dalek, the canonical JSON and the accept or reject of the tuf crate (a function
-- of the updates so far), the RFC 3339 parser of chrono, the JSON schemas, the reading and writing of
-- the documents by serde, and what catalog_bundle.rs says of a manifest, a payload and an installed
-- file (`Host` in Trust/Policy, `Outside` in Trust/Wire, `Bundles` in Trust/Install).
--
-- What is not modelled: the serde attributes of the documents; `Display` of the errors; `export_sarif`,
-- which only builds a JSON value; in the trust store the reports `status` and `inspect` and the JSON that
-- `import` and `initialize` return, producer.rs, the taking of the lock, and the checks of permissions,
-- links and syncs, which touch nothing but the file system; the rest of secureflow-knowledge, the crates
-- secureflow-secure-adapter, secureflow-engine-adapter, secureflow-ai, secureflow-bench-adapter and
-- secureflow-cli, and the other modules of secureflow-web; and the application apps/review-room.
pub mod Prelude
pub mod Text
pub mod Run
pub mod Orchestrator
pub mod Case
pub mod Scope
pub mod Trust
mod Tests
