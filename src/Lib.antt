-- ===== src/Lib.antt =====
-- nemoir-web-runtime runs workflows in the browser: a decoded manifest names stages, what each reads and
-- writes, the transitions between them, the capabilities that they may call, and policies on those
-- capabilities. `WorkflowRuntime` (src/runtime.ts) runs the stages one after the other, each by a stage
-- executor, and puts every tool call of an executor behind the policies.
--
-- The files and the code that they model:
--   Errors         src/errors.ts; `Result` is what a function returns or throws
--   Js             what the code uses of JavaScript: Text strings, Number doubles, Value the type
--                  `unknown`, Dict records and maps, Group maps of lists
--   Manifest       the types of src/manifest.ts
--   Evaluator      src/evaluator.ts: references, expressions, guards. Missing: null and undefined in
--                  guards; Connectives: and, or, not; Raises: the errors of a guard
--   Unicode        hasLoneSurrogate of src/runtime.ts, assertUnicodeScalarString of src/canonical.ts
--   Output         isJsonSafeValue, validateWriteType, validateOutput and normalizeOptionalEmptyArrays of
--                  src/runtime.ts
--   Transitions    readDisplayKey, resolveReads and selectTransition of src/runtime.ts
--   Capabilities   src/capabilities.ts
--   Tools          src/tools.ts: the registry and its call
--   Events         src/events.ts: the emitter, and the state that a run threads; Calls, Outcomes,
--                  Sequence and Terminal are four logics of the operations on it (the handler calls that
--                  are made, the results, what is kept, and the events that end a run); Predicates
--                  the predicates that most events keep
--   Policy         enforceAndCall and enforceAndCallWithPolicies of src/runtime.ts; Args its helpers;
--                  ToolCall, Granted, Gate and Deny the handler calls; Keeps its events
--   Runtime        the constructor and `run` of WorkflowRuntime; Stages the constructor's checks, Results
--                  how a run ends, Reads a stage that cannot start, Numbered and Terminal its events
--   Deterministic  src/deterministic.ts: the executor of tool stages; Projection what it keeps of a result
--   Models         src/models.ts: Contract the types of src/model-contract.ts; Schema the output and
--                  tool schemas; Output the checks of outputs and arguments (Safe, Valid); Extract the
--                  search for a JSON object in a text (Balanced, Embedded); Envelope the parsing of
--                  answers; Executor the model executor (Asking a request, Rounds the loop; Results what
--                  it returns, Bounded its end, Keeps and Requests its events)
--   RunOptions     the options of a run of src/runtime-types.ts
--   Agent          src/agent.ts: the constructor; Merged its tools, Run createRuntime and `run`, Outcome
--                  the events of a run
--   Canonical      canonicalStringify of src/canonical.ts; Order its sorting, Reordered the values that it
--                  does not tell apart
--   DeviceCapabilities  assessModelFit of src/device-capabilities.ts; Fit the cached models
--   Ir             src/ir.ts: the decoded workflow; Conversion buildWorkflowManifest of src/manifest.ts;
--                  Web validateForWeb; Approval the confirmation before the sandbox
--   Publication    src/publication.ts: the shapes of a ledger's values; Keys the allow-lists, Shape the check
--                  of a record, Project its projection, Public what is left in it, Refs the references
--                  for paths, Numbering and Shown their numbers and where they are shown
--   Sandbox        utf8ByteLength of src/sandbox.ts; Utf8 what it counts
--   Trace          src/trace.ts: Pointer the escaping of pointers, Segments the keys read back
--   ModelSources   src/model-sources.ts; Overlay which record an id finds
--   Examples       a small workflow, the theorems at it, and tests
--
-- How the state and the operations correspond. A run's state (`State`) is the emitter's sequence
-- number, the log of events and of calls on the trace recorder, and the handler calls made. A model
-- adapter is a function of the length of the log and the request; `JSON.parse` and `jsonrepair`, which
-- may fail, are fields of the record `Host`. An `async` function is `Exec`, from a state to a result
-- and a state; an exception is the result `err`, and the state stays as it was when it was thrown. A
-- tool's handler is a function of the number of handler calls made before and of the arguments, so two
-- calls may answer differently. The verdicts that a replayed trace holds (`tape`) and the abort signal
-- (`aborted`) are functions of the length of the log, so that they may change between any two
-- observations. A run starts with an emitter and a log of its own (`fresh`). A stage executor is any
-- function on `Exec` that is given the stage's context and its `callTool`.
--
-- Values. A string is the list of its UTF-16 code units, a number the 64 bits of a double. Arrays and
-- objects have an identity, by which `===` and a `WeakSet` tell them apart. `undefined` and `null` are
-- values. Rounding arithmetic, the conversions between strings and numbers, and the conversion of an
-- object to a primitive, which may throw, are a record `Engine`, which the definitions take as a
-- parameter. A value is a finite tree: cyclic values are outside the model, so that `JSON.stringify` in
-- the preview of a tool's result does not throw. A dictionary is
-- an association list with its own keys only: keys that a JavaScript object inherits are outside the
-- model, and so are bigints, getters, `toJSON` methods and proxies.
--
-- Bounds. Every function is total. The loop of `run` is recursion on the steps that are left of
-- `maxSteps`, which the loop itself tests, so no fuel is added; `maxSteps` is a natural number. The loop
-- of the model executor counts retries and tool rounds as the source does, and takes fuel of
-- `maxModelRetries + maxToolRounds + 1` rounds: each round but the last uses up a retry or a tool round,
-- and more fuel makes no difference.
--
-- Not modelled: error messages, timestamps, run ids and previews in events; a sink, an observer or a
-- recorder that throws; the WebLLM adapter (src/webllm.ts), the texts of the messages to a model, the
-- rest of the sandbox and the browser tools (src/sandbox.ts, src/browser-tools.ts), which are handlers
-- to this code; the recording and replay of traces (the rest of src/trace.ts, src/replay.ts), of
-- src/publication.ts the graph, the archive and the attestation, the command line (src/cli.ts), and
-- the schemas of zod that decode a manifest.
pub mod Prelude
pub mod Js
pub mod Errors
pub mod Manifest
pub mod Ir
pub mod Models
pub mod RunOptions
pub mod Agent
pub mod Publication
pub mod Canonical
pub mod DeviceCapabilities
pub mod ModelSources
pub mod Evaluator
pub mod Unicode
pub mod Capabilities
pub mod Tools
pub mod Output
pub mod Events
pub mod Policy
pub mod Runtime
pub mod Deterministic
pub mod Transitions
pub mod Examples
pub mod Sandbox
pub mod Trace
