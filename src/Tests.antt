-- ===== src/Tests.antt =====
-- The theorems at concrete inputs, and runs of the model.
mod Samples
mod Session
mod Parser
mod Collector
mod Tables
mod States
mod Files
mod Buffer
mod Transport
mod App
mod Metrics
mod Whole
mod Observed
mod Release
