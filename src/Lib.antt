-- ===== src/Lib.antt =====
-- Vela Relay takes ERC-4337 user operations over JSON-RPC, bundles them, and submits them through
-- EntryPoint contracts, paid in band by a transfer inside each operation. The decisions are in one
-- crate, vela-relay-core, without input or output. Two shells run them: a Docker service
-- (src/, with Redis and a queue) and Cloudflare Workers (vela-relay-cf/, with Durable Objects). This
-- development models the decision modules of the core, and the Durable Object that stores an
-- operation's record.
--
-- How the parts interact. An admitted operation is written as a queued record (Task), one for each
-- hash, and claims the slot of its account's nonce (NonceSlot); record and slot each live in a
-- Durable Object (RecordDo), which judges every change of status by the lifecycle table (Lifecycle)
-- and merges the patch that asks for it (Patch). A record that is rejected carries a reason
-- (Rejection). The executor takes operations in bundles: it shares and bills their gas (Cost), reads
-- the market and the tips of the three tiers (GasMath), parses what each operation pays and decides
-- whether, and at which fee, the bundle is signed (Settlement), tops its relayer up (Funding), and
-- waits or retries by the ladders of Hold and Pace. Every read of a chain walks its endpoints by
-- what earlier walks learned (RpcWalk). The executor's program itself, with the order of what it asks
-- of a shell, is Execution; what may be sent and how an answer is judged is Broadcast.
--
-- Files:
--   Prelude and below: shared helpers. Words has Rust's checked and saturating arithmetic, Text has
--     strings as lists of code points, Result has `Result` as a monad.
--   Task: vela-relay-core/src/task.rs (`UserOperationStatus`, `StoredUserOperation`,
--     `queued_record`, `truncate_diagnostic`).
--   Rejection: vela-relay-core/src/rejection.rs (`RejectionReason` and its functions).
--   Patch: the merge in vela-relay-cf/src/record_do.rs (`apply_patch`).
--   Lifecycle: vela-relay-core/src/lifecycle.rs (`transition_is_allowed`, `decide_patch`,
--     `decide_bundle_submission`, `dead_letter_patch`).
--   NonceSlot: vela-relay-core/src/nonce_slot.rs (`claim`, `take_over`, `release`,
--     `holder_state`).
--   RecordDo: vela-relay-cf/src/record_do.rs. `RecordState` is the object's storage and its alarm;
--     `handle` is `fetch`, one clause for each command of vela-relay-cf/src/proto.rs; `alarm` is
--     `alarm`; `run` is a sequence of commands, since the object's single thread takes one at a
--     time.
--   Hold: vela-relay-core/src/hold.rs. Pace: vela-relay-core/src/pace.rs.
--   Cost: vela-relay-core/src/cost.rs (`allocate_bundle_gas`, `declared_bundle_gas`, `billed_gas`,
--     `settlement_gas_allocations`).
--   Funding: vela-relay-core/src/funding.rs.
--   GasMath: vela-relay-core/src/gas_math.rs: the tables and `TierTips`; Fees has `OuterFee`,
--     `tier_outer_fee`, `tier_price`, `tiers`; Market has `FeeHistory` and `quote_market_tip`.
--   RpcWalk: vela-relay-core/src/rpc_walk.rs (`EndpointCooldowns`, `MissingMethods`,
--     `method_error_answer`); History is about the walks of a chain, one after the other.
--   Settlement: vela-relay-core/src/settlement.rs: the conversions and minimums; Calldata has
--     `parse_reimbursement`; Evaluation has `evaluate_batch`; Decision has
--     `decide_submission_fees` and `decide_settlement`.
--   Treasury: vela-relay-core/src/treasury.rs (`unreadable`, `quantity_is_below`);
--     Status has `treasury_status`.
--   Abi: vela-relay-core/src/abi.rs (`PackedOperation`, its parsing and hash). Vault:
--     vela-relay-core/src/vault.rs (`relayer_index_for_sender`).
--   Broadcast: vela-relay-core/src/broadcast.rs. Tempo: vela-relay-core/src/tempo.rs.
--   Execution: vela-relay-core/src/execution.rs. Operation has `ExecutionOperation` and
--     `ExecutionOutcome`; Program has `request` and the runs of a program; Readings has the `match`
--     that reads an outcome; Candidates has `candidate_from_record`; Results has the
--     slots of a batch; Triage and Batch have `drive_batch`; Simulation, Gate, NativeBundle,
--     TempoBundle and Outbox have the parts of `execute_with_lane_lease`, which Pipeline puts
--     together; Sending has `broadcast_bundle`; TopUp has `broadcast_funding`,
--     `resume_funding`, `await_fresh_top_up`; Funding and TempoFunding have the two top-ups.
--     Discipline says what a program obeys, FundingRules what a top-up may ask and LaneRules what
--     a batch may ask; the Safety files are about them, with LaneSteps and LaneLift, which carries
--     a top-up's rules over to the lane's; Selection is about `bundled`, and Binding
--     about the candidates that the triage lets through.
--   Examples: concrete runs.
--
-- The platform is a value of the model: `Platform` gives a command its clock and says whether the
-- storage can be read. Writes to the storage succeed. A record's JSON is the record, and a patch is
-- the list of the fields that it sets, with a constructor each for a key that no field has and for a
-- value that does not read back.
--
-- Numbers are natural numbers; every operation that Rust checks, or that saturates, is written with
-- its word's modulus. `usize` is taken for 64 bits. The mean of `gasUsedRatio` is floating-point
-- arithmetic, so a `FeeHistory` carries its reading.
--
-- An asynchronous function of execution.rs is a `Program`, a tree: what it asks its shell, and how
-- it goes on from each outcome. A run is against a `Shell`, any function of what was asked and
-- answered before, so that a theorem for every shell covers every failure, interrupt and unexpected
-- answer. `Crates` and `Alloy` have what the program calls of other crates. A program that fills
-- the slots of its batch is a `Lane`, which takes and gives the slots. A slot's index is one of the
-- batch's.
--
-- The hex crate is a parameter of Treasury, `Hex`; `IsHex` says what it is documented to do.
--
-- Rounds: the printing of a decimal takes 80 rounds and covers 2 ^ 256; that of a hexadecimal
-- quantity takes 32 and covers 2 ^ 128; the retry table takes 7 rounds and ends by its own test; the
-- loop of `parse_reimbursement` takes one round for each byte, and every round of it moves on by 85
-- bytes or more.
--
-- Not modelled: a panic (a policy whose bundles take no operation makes `execute_with_lane_lease`
-- index an empty list; the model's pass ends), admission, estimate, quote, simulation, receipts,
-- the JSON-RPC wire types, signing and key derivation, the lane and treasury Durable Objects, and
-- the Docker service with its Redis scripts. Of execution.rs the wiring of `ExecutionApp` and the
-- conversions of simulation results are left out; of abi.rs the calls other than `handleOps`; of
-- rpc_walk.rs, treasury.rs and broadcast.rs the JSON of `batch_replies`, `balance_read` and
-- `revert_data`; of settlement.rs the market price's parsing.

mod Prelude
pub mod Task
pub mod Rejection
pub mod RpcWalk
pub mod Patch
pub mod Lifecycle
pub mod NonceSlot
pub mod RecordDo
pub mod Hold
pub mod Pace
pub mod Cost
pub mod Funding
pub mod GasMath
pub mod Settlement
pub mod Treasury
pub mod Tempo
pub mod Vault
pub mod Abi
pub mod Broadcast
pub mod Execution
mod Examples
