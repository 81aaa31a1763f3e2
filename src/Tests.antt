-- ===== src/Tests.antt =====
-- Runs of the model and the theorems at concrete inputs.
mod Codec
mod Device
mod EngineRuns
mod Database
mod HubRuns
mod Directory
mod EndToEndRuns
mod DiskRuns
mod Network
mod NetworkRuns
mod ReconcileRuns
mod DesktopRuns
