-- ===== src/Tests.antt =====
-- The definitions and theorems at concrete inputs.
mod Fixtures
mod Values
mod Examples
mod ClusterExamples
mod TextExamples
mod CustodyExamples
mod ManagerExamples
mod LivenessExamples
mod EndToEndExamples
mod ClusterLivenessExamples
mod RunExamples
mod DeepCopyExamples
mod LifetimeExamples
mod LookupExamples
