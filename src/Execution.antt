-- ===== src/Execution.antt =====
-- vela-relay-core/src/execution.rs: the program that takes one lane's batch of operations from the
-- queue to a signed, stored and sent transaction, as a tree of the operations that it asks of the
-- shell. It never sees a key, a clock or a socket.
pub mod Operation
pub mod Program
pub mod Candidates
pub mod Results
pub mod Simulation
pub mod Gate
pub mod Outbox
pub mod NativeBundle
pub mod TempoBundle
pub mod Pipeline
pub mod Triage
pub mod Batch
pub mod Readings
pub mod Sending
pub mod TopUp
pub mod Funding
pub mod TempoFunding
pub mod Discipline
pub mod FundingRules
pub mod TopUpSafety
pub mod SigningSafety
pub mod LeaseSafety
pub mod FundingSafety
pub mod TempoSafety
pub mod LaneRules
pub mod LaneLift
pub mod LaneSteps
pub mod SimulationSafety
pub mod MismatchSafety
pub mod GateSafety
pub mod OutboxSafety
pub mod SubmissionSafety
pub mod BundleSafety
pub mod TempoBundleSafety
pub mod PipelineSafety
pub mod TriageSafety
pub mod BatchSafety
pub mod Selection
pub mod Binding
