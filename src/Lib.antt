-- ===== src/Lib.antt =====
-- Ligis decides whether an agent's payment may be made, and keeps account of the payments that it
-- makes. This library models the parts of the repository that carry these decisions, in TypeScript
-- under packages/, and proves what they promise.
--
-- Procurement (packages/procurement/src). `evaluate` (controller.ts) runs eleven checks on an
-- invoice against its purchase order, its mandate, the order's earlier attempts and a human's
-- approval, and answers GO, STOP or REVIEW. `ProcurementExecutor` (executor.ts) reconciles the
-- order's attempts with the payout rail, evaluates, and on GO records an attempt, commits the amount
-- to the mandate and asks the rail for the transfer; its ledger is ledger.ts, its rail the interface
-- of rail.ts. `allocate` (treasury.ts) divides the cash among obligations.
--   Procurement/Types       types.ts: each interface a record, each union of literals a data type
--   Procurement/Ledger      ledger.ts: the tables, with their puts and gets
--   Procurement/Controller  controller.ts: one definition for each check, and `evaluate`
--   Procurement/Rail        rail.ts: the interface, and under Fixture the in-memory `FixtureRail`
--   Procurement/Executor    executor.ts: Defs has the methods, as functions of the ledger and rail
--   Procurement/Treasury    treasury.ts
--   Procurement/Fixture     concrete orders, ledgers and rails
--   Procurement/Tests       runs of the code and instances of the theorems
-- A text that the code only compares is a number, and 0 is the empty text; an amount is a natural
-- number of minor units, so negative and fractional amounts are left out; the limit with the price
-- tolerance is computed with doubles (Prelude/Double), as in the source, and rounded down, since only
-- integers are compared with it; integers are taken to be below 2 ^ 53, where doubles are exact. What
-- `randomUUID`, SHA-256 and the clock answer is an argument. A rail is any record of functions, so
-- a theorem about `pay` holds whatever the rail answers, exceptions included. `pay` is one step, as
-- its lock makes it for calls that share a mandate; `reconcile` is another. The lock itself,
-- `JsonFileLedger`, `eventsFor`, the HTTP calls of `AirwallexSandboxRail` and the destination
-- fingerprint are not modelled.
--
-- Wallet (packages/wallet-plugin/src). A guard stands between an agent and its wallet's signer.
-- `parseOperatorPolicy` (policy.ts) reads the operator's configuration and
-- `tightenWithAgentRequest` merges an agent's mandate into it; `parseOperation` (operation.ts) checks
-- a transfer authorization against the policy and takes its fingerprint; `fetchDecision`
-- (decision.ts) asks the gate and validates its answer; `enforce` (guard.ts) composes these, asks the
-- signer, and records the signature by fingerprint.
--   Wallet/Types, Chars, Number  types.ts; texts with the code's regular expressions; numbers
--   Wallet/Policy     policy.ts: Parse and Tighten have the code, Sound and Narrower the lemmas
--   Wallet/Operation  operation.ts: Defs has the code; Steps takes a successful run apart
--   Wallet/Decision   decision.ts: Defs has the code
--   Wallet/Guard      guard.ts: Defs has the code; `enforce` is `start`, `assess` and `sign`, the parts
--                     between its two awaits
--   Wallet/Fixture    inputs with runs of the code; Tests has the theorems at these inputs
-- A text is a list of code points. A JavaScript number is finite in millionths, infinite, or NaN; what
-- the code takes as unknown is a JavaScript value, arrays and objects included. The transport and the
-- signer are functions of what they are asked; the clock's two readings, `new URL` and SHA-256 of the
-- bound fields are arguments, and so is the request at the time of its second reading, since its owner
-- may change it. The times of an authorization are exact: `Number` of a decimal text is not rounded.
-- The texts of refusals are left out, and a clock that is not a number.
--
-- Gate (web/lib/decide.ts). `decide` answers GO, STOP or UNKNOWN for a payment that is intended.
-- `checkMandate` checks the operator's mandate and the caller's in code, `combineSignals` joins each
-- term with Jev's signal, the answers of the credential registries, the evidence readers and a private
-- proof become the signal for the payee, and `composeVerdict` makes one verdict of the four signals.
--   Gate/Defs     the mandates, the combination and the verdict, for any signals of the layers
--   Gate/Reads, Gate/Layers  the signals from what the layers answer, and `decide_from`, the whole
--   Gate/Terms    what each constraint says of a payment
--   Gate/Allowed, Gate/Stopped  when the verdict is GO, and when it is STOP
--   Gate/Qualified  what a verdict says of credentials and evidence
--   Gate/Tests    runs of the code and instances of the theorems
-- Amounts are JavaScript numbers, the product with the tolerance is that of doubles, and the texts and
-- references that a signal shows are left out, as are the calls to the layers with their time limits:
-- an answer that did not come is an argument like the others.
--
-- Payment amounts (web/lib/payment-asset.ts). Base units, decimal texts in the source, and dollar
-- amounts, after `Math.round` to millionths, are natural numbers. Printing takes 39 digits,
-- `MAX_BASE_UNIT_DIGITS`, so the round trip is stated below that bound.
--   Asset/Defs     `toBaseUnits` of a text, `formatBaseUnits`, `scaleBaseUnitsByUsd`
--   Asset/Decimal, Asset/Trim  what printed digits are worth, and trimming
--   Asset/RoundTrip, Asset/Scale  formatting and reading back, and the rounding of the scaling
--   Asset/Tests    runs of the code and instances of the theorems
-- Not modelled: `toBaseUnits` of a number, which prints it with `toFixed`, the chain identifiers, and
-- `parsePaymentAmount`.
--
-- Private credentials (packages/circuits-zcash, web/lib/zk-credential.ts). `buildRegistryRoot`
-- (registry.ts) replays the events of a credential registry, and builds of the credentials that are
-- live, unexpired and registered by their subjects the Poseidon tree of index.ts; a holder finds its
-- leaf in the published manifest and assembles the inputs of the circuit (circuit/src/main.nr); the
-- gate checks what a presented proof says and claims its nullifier.
--   Zk/Tree        `CredentialTree` of index.ts; Nodes and Root compare it with the full binary tree
--   Zk/Field, Zk/Label  fields.ts: field elements as text, and the labels of presentations
--   Zk/Circuit     main.nr, and the inputs from index.ts; Complete and Sound are the two directions
--   Zk/Registry    registry.ts: Keys and Defs have the replay and the registrations, Build the leaves
--                  and the tree; Holder and Witness join it with the circuit
--   Zk/Credential  zk-credential.ts: `begin`, `check_proof` and `record_nullifier` are the evaluation
--                  between its awaits; Steps lets evaluations interleave
--   Zk/Fixture     concrete values; Tests has the theorems at these values
-- Poseidon, Keccak-256 and the recovery of a signer are arguments: Poseidon a function of a list of
-- numbers, which the theorems on soundness take to be without collisions and never zero. The depth of
-- the tree, 16 in the source, is an argument. The circuit's inputs are field elements; its verifier is
-- an argument of the gate. The key of a credential is a triple where the source joins texts by colons,
-- and the numbers of an event are numbers where the source keeps decimal text. The Merkle paths are
-- lists whose length the theorems take to be the depth, which is a type in the source. The verifier
-- may throw, the stores catch what goes wrong. `toLowerCase` is that of ASCII letters, so payees,
-- labels and addresses are taken to be ASCII. Attestations of manifests, the reading of a chain, and the
-- store that other processes share are not modelled.
pub mod Prelude
pub mod Procurement
pub mod Wallet
pub mod Gate
pub mod Zk
pub mod Asset
