-- ===== src/Lib.antt =====
-- kestrel-sovereign-sdk: a verification library for the core contracts of kestrel_sdk.
--
-- The SDK is the boundary between a host (Kestrel core) and its plugins. Most of its code are records
-- that refuse ill-formed facts when they are made, and guards that a host calls before an effect. This
-- library models the parts with rules of their own, as functions into results: a call returns, or
-- raises one of the exception classes of Prelude/Results, known by the words of the `raise`.
--
-- Parts and files (paths of the repository):
--   FrozenJson    kestrel_sdk/_frozen_json.py. Values holds the data: caller-supplied values are a
--                 graph of containers with identities, which may be cyclic. Walk is `_Walk` and
--                 `freeze_json`: one function per method, the mutable fields as a State that each
--                 method takes and returns. Canonical is `thaw_json` and `canonical_json_bytes`.
--                 Walk/Size, Exact, Keeps, Ancestors and Terminates are the lemmas, Freeze is what
--                 callers see.
--   Validation    kestrel_sdk/_validation.py: stable tokens, browser-safe texts, token sets,
--                 semantic versions (Versions). A text is the list of its code points.
--   Operator      kestrel_sdk/operator: Context is context.py, Launches, Records, Controls and
--                 Pages are the records of runs.py and targets.py, Percent and Hrefs its artifact
--                 links (Hrefs/Accepted, Hosts and Signed: accepted ones), Discovery is discovery.py
--                 (Discovery/Compatible: how `accepts` composes). Each record's `__post_init__` is
--                 a function from the arguments to the record.
--   ComputerUse   kestrel_sdk/resources.py and kestrel_sdk/computer_use: Resources, Environments
--                 and Sessions are the records, Acquisition is the checkpoint of acquisition.py
--                 with its transitions (Kept and Steps: what one keeps, Custody: sequences of them,
--                 Progress: a first row is not stuck, Preparation: the hashed bytes), HumanControl
--                 is human_control.py (HumanControl/Binding: what an accepted frame, action or
--                 retirement is bound to).
--   Inference     kestrel_sdk/llm/inference_lease.py: Constraints (requests, capabilities, quotes),
--                 Leases, Honored (what accepted ones honour) and Quotable (which quotes exist).
--   Outcomes      kestrel_sdk/resources.py, `observed_outcome_unknown`: the search of a graph of
--                 exceptions, its end (Loop) and what it finds (Reached, Observed).
--   Payers        kestrel_sdk/payer_policy.py: Matrix (statuses and lookups), Policies (specs and
--                 policies), Offers (the matrix as rules), Accepted (what the checks accept) and Refused.
--   IsolatedFeature kestrel_sdk/isolated_feature/protocol.py: Values (Python values and lookups),
--                 Messages (JSON-RPC; RoundTrip, and Sound and Decoded: what frames say),
--                 Execution (contexts of tool calls), Ingress (private calls; Slugs and Payloads)
--                 and Metadata (tools, and transitions of the configuration). StdioWriter is the
--                 output writer of kestrel_sdk/isolated_feature/service.py: a step is one critical
--                 section of a caller or one action of the worker thread (Wire: the bytes, Drains: the
--                 completions, up to the call of `call_soon_threadsafe` that hands an outcome to
--                 its event loop, or to that loop being closed; Stops: the end of the worker, in as
--                 many steps as the weight of the jobs left).
--   Prelude       shared types, tests and lemmas.
-- Operator and ComputerUse rest on Validation for their identifiers and do not use each other. The
-- files named Tests hold runs at concrete values.
--
-- Numbers are natural numbers, as Python's are unbounded; instants are microseconds of UTC, and a
-- datetime without a time zone is a value of its own. Sets are lists of which only membership is
-- asked. Fields carry the types that the annotations give them, so checks of `isinstance` have no
-- counterpart; in Sessions, HumanControl and Inference nor have most checks of single fields, and their
-- records hold values that passed those. Where pydantic collects the errors of several fields, the
-- model raises the first. Durations compare as microseconds, where Python's `total_seconds` is a float.
--
-- Fuel: `freeze` takes the number of nested calls that the interpreter's stack has room for, and
-- raises RecursionError without any left. One more than there are containers is enough, and with a
-- depth limit two more than the limit. The search of Outcomes takes one round more than there are
-- references. `decode_path` has the four rounds of the source.
--
-- Parameters, which stand for code outside this repository: `json.dumps` on one scalar and its
-- documented compact layout, validators that a caller of `freeze_json` passes, `str.strip`, `urlsplit`,
-- `unquote`, `IPv6Address`, SHA-256 (64 hexadecimal digits, where a theorem says so), the digests of
-- requests and quotes (hashed JSON text), the type of money in ComputerUse and Payers, and in
-- IsolatedFeature `json.dumps` and `json.loads` with UTF-8 (what is written is read back) and datetimes
-- with their ISO format.
--
-- Not modelled: protocols without code, the private storage codec of acquisitions, artifact
-- metadata, public dictionaries, the TOML form of policies, decisions, tools, the request handling
-- of isolated features (the rest of service.py, client.py), security, and the remaining records;
-- the vendored A2A SDK (kestrel_sdk/native_a2a); I/O.
mod Prelude
pub mod FrozenJson
pub mod Validation
pub mod Operator
pub mod ComputerUse
pub mod Inference
pub mod Outcomes
pub mod Payers
pub mod IsolatedFeature
