-- ===== src/Tests.antt =====
-- Concrete runs of the model, and the theorems at concrete inputs.
mod Samples
mod BillingRuns
mod DeliveryRuns
mod GatewayRuns
mod QueueRuns
mod InferenceRuns
mod JsonlRuns
mod JobRuns
mod StorageRuns
mod ResultRuns
mod RunnerRuns
mod LimiterRuns
mod SettingsRuns
mod ProjectRuns
