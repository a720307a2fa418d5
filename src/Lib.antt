-- ===== src/Lib.antt =====
-- LMML manages local language models: it imports model checkpoints, keeps append-only records of
-- where models come from, builds and runs inference backends, and routes requests to nodes on a
-- LAN. This library models crates/lmml-substrate, the crate that keeps the records, the signed
-- approvals of what they run, the decisions of crates/lmml-router, which sends requests to nodes,
-- the admission and the routes of crates/lmml-gateway, which stands before an approved backend, the
-- command lines that crates/lmml-compat makes for llama-server, and the reading of GGUF headers of
-- crates/lmml-models.
--
-- The parts and their files:
-- - Base: what the modules share: numbers, texts, lists, results, and 64-bit floats as bit patterns
--   (Base/F64). Base/Text has the queries that the code makes of `str`.
-- - Substrate/Types, Substrate/Errors, Substrate/Json: the records of
--   crates/lmml-substrate/src/types.rs, `SubstrateError`, and `serde_json::Value`.
-- - Substrate/Identifiers, Substrate/Canonical, Substrate/Artifacts: `Hash256::parse`, and of
--   crates/lmml-substrate/src/storage.rs the checks of identifiers, the canonical manifests with
--   their seal, and the artifact manifests.
-- - Substrate/Disk: the files and the calls of `std::fs` and `tempfile` that the crate makes.
--   Substrate/Disk/Frame and Substrate/Disk/Chains are the logic of such calls.
-- - Substrate/Persist, Substrate/Admission, Substrate/Agreement: `persist_immutable_with_outcome`,
--   the stores of crates/lmml-substrate/src/lifecycle.rs, and `store_admitted_successor` with its
--   rollback; Agreement/Agreed says in what its two records agree.
-- - Substrate/Checks, Substrate/Training, Substrate/Successors: the validators of
--   crates/lmml-substrate/src/lifecycle.rs and src/lifecycle/successor.rs of that crate, and the
--   comparisons between two records.
-- - Substrate/Leases: `issue_model_lease` of crates/lmml-substrate/src/lifecycle.rs. Leases/Suited
--   says when a runtime and its artifact suit a request, as equations between the records, and
--   Leases/Terms what a lease says of them.
-- - Substrate/Platform: what the crate takes from other crates, as parameters: SHA-256, RFC 3339
--   times and the JSON texts of records.
-- - Base/Ascii, Base/Decimal: UTF-8 as `str::from_utf8` takes it, and the decimal texts of a `u64`.
-- - Substrate/Approval: crates/lmml-substrate/src/approval.rs. Types has the records; Hex and Json
--   `hex_encode`, `hex_decode` and `canonical_value`, with Json/Meaning what it is to mean the same
--   and Json/Classes the quotient by that; Policy `validate_prompt_request`, with Policy/Limits,
--   Policy/Messages and Policy/Exact the requests that it accepts; Contracts the validators;
--   Signing the digests, `sign_*` and `verify_*`; Status `compute_admission_status`. Files has the
--   file operations of that module, Anchor `read_anchor` and `write_anchor`, Stores and Loads
--   `store_*` and `load_*`. Platform has SHA-256, RFC 3339, Ed25519 and `serde_json` as parameters.
-- - Api: the records of crates/lmml-api/src/lib.rs that nodes answer with; Api/Attestation has
--   `sign_gateway_attestation`, `verify_gateway_attestation` and
--   `validate_gateway_attestation_binding`. Base/Int has the `i64`.
-- - Router/Types, Router/Config, Router/Access: of crates/lmml-router/src/lib.rs the records, the
--   checks of the configuration, and `authorize`.
-- - Router/Specs: the upstreams and keys that are given on the command line.
-- - Router/Discovery: the table of crates/lmml-router/src/discovery.rs and the upstreams that come
--   of it; Base/Maps has the ordered maps.
-- - Router/Attested: `discover_upstreams`, `fetch_upstream_probe` and `get_upstream_health` with
--   the attestation that an upstream shows; Bound has what an accepted one is, Chosen the upstreams
--   that are chosen then.
-- - Router/Counters, Router/Selection, Router/Aggregate: the counters of open requests,
--   `select_upstream`, and the models and loads of the nodes together; Aggregate/Capabilities has
--   `aggregate_capabilities` and `health`, Aggregate/Routable what they say of the routes.
-- - Router/Proxy: `read_authorized_body` and `call_upstream`, in Proxy/Route `proxy_json_route`,
--   which composes Access, Attested, Selection and Counters. Proxy/Routed has what precedes a call,
--   Proxy/Balanced what is answered and counted.
-- - Gateway: crates/lmml-gateway/src/lib.rs. Store has `ApprovalStore::read_status`, Admission the
--   calls of `GatewayAdmission` (`status`, `activate_if_approved`, `refresh`, `revoke`), Handlers
--   the configuration, `authorize` and the small responses, Handlers/Routes `health`, `models`,
--   `chat_completions` and `forward_response`. Served puts the admission and a chat request
--   together. Verified says what the files of a store show, Loaded what a file that is read holds.
--   The status that a route is given is the answer of a call of Admission, which reads the files
--   with the functions of Substrate/Approval; a chat request is checked by
--   Substrate/Approval/Policy.
-- - Compat: crates/lmml-compat/src/lib.rs. Types has its records, Help the reading of what the
--   binary prints for `--help` and `--version`, Argv `build_argv` and `unsupported_warnings`.
--   Argv/Plan has the settings of a configuration with their spellings, Argv/Render and
--   Argv/Warnings what is written and warned of them; the command runner is a parameter.
-- - Models: of crates/lmml-models/src/lib.rs the records of a GGUF header (Types), the reading of
--   numbers and texts (Gguf/Reading), what the metadata say (Gguf), and `parse_gguf_reader`
--   (Gguf/Parse). Gguf/Format, Gguf/RoundTrip and Gguf/Header are the bytes that the format
--   prescribes, Gguf/Eats and Gguf/Fuel what is read of them at each step, Gguf/Steady that more
--   fuel changes nothing. Base/Utf8 has `String::from_utf8_lossy`, Base/Bytes the bytes of numbers.
--
-- Each function keeps its name. A `Result` with `?` and early returns is a chain in Base/Results; a
-- function that touches files maps a World, the disk and the number of calls made so far, to its
-- result and the next World. An Os says for each call whether it fails and whether another process
-- creates the file first. A loop over a list is structural recursion, so no fuel is needed; the
-- decimal digits of `n` are printed with `n` and one more rounds of fuel, which the round trip
-- shows to be enough. Arrays of a GGUF file nest, so `read_value` has fuel; as much as the file has
-- bytes and one more is enough, since each level reads twelve bytes. A set of names seen so far is
-- a list. The fields of a JSON object are a list in any order, in which a key may occur twice; the
-- map of `serde_json` in the locked build is sorted and has each key once, so that of those only
-- some arise.
--
-- A `u64` is a number; where the code adds or multiplies with overflow checks, the bound 2 ^ 64 is
-- written out. Floats are compared and added as IEEE 754 says, by bit patterns. Paths are texts,
-- with the rules of Unix. A list's `len` is taken to fit 64 bits.
--
-- The counters of the router wrap around, as in a release build. A lock is never poisoned. The
-- answers of upstreams to the router's probes are given as a list, in the order of the upstreams; a
-- probe whose task panics is missing. The environment is a function of the variable's name; a call
-- of an upstream is two steps, its begin and its end, and calls interleave in any order. What
-- `str::to_lowercase` does to letters beyond ASCII is a parameter.
--
-- The fields of the gateway's admission are locked one by one, so a call is a program counter and
-- each access is a step; steps of any number of calls interleave in any order, and each reading of
-- the files sees some disk. `read_status` reads its files one after the other; here it is one step,
-- which sees one disk. The gateway's requests to its backend, the time, the bodies of requests,
-- URLs, JSON and base64 are parameters; a stream is a list of the turns of its loop. The sums of an
-- `i64` wrap around, as in a release build. `hex_decode` in crates/lmml-api panics where that of
-- crates/lmml-substrate does.
--
-- A call that panics is the error `panicked`, which `SubstrateError` of the code has not; it arises
-- in `hex_decode` alone. A length in a GGUF file that exceeds what can be allocated ends the
-- process; it is the error `allocation_failed`, and the largest allocation a parameter. The depth
-- of the call stack is not bounded, so that a file with arrays nested deeper than the stack allows
-- is read here, where the process ends. Of a GGUF file the bytes up to its end or the first failure
-- to read are given. A private key is its bytes, permissions are not modelled, the temporary file
-- of `tempfile` is not on the disk, so that one which stays behind is not seen, and a write that
-- fails leaves any first part of its bytes. `Path::with_extension` is modelled for paths that end
-- in a file name.
--
-- Not modelled: the inspection of templates and the deployment snapshots of
-- crates/lmml-substrate/src/approval.rs; the scan of model directories, downloads and the estimate
-- of what fits in VRAM; HTTP, sockets and processes, the server of the gateway and the `listen` and
-- `request_timeout` that it is given; the reading of manifests from files, since it is
-- `serde_json`; the import of checkpoints and adapters, since it reads safetensors headers;
-- directories, which are no files of the disk here; the messages of errors that carry the text of
-- another crate's error.
pub mod Api
pub mod Base
pub mod Compat
pub mod Gateway
pub mod Models
pub mod Router
pub mod Substrate
