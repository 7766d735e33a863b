-- ===== src/Tests.antt =====
-- Runs on concrete inputs.
pub mod TrackerRuns
pub mod ServiceRuns
pub mod OpsRuns
pub mod HandlerRuns
pub mod ActionsRuns
pub mod TaskRuns
pub mod QueueRuns
pub mod TableRuns
pub mod RexRuns
pub mod DispatchRuns
pub mod GardenerRuns
pub mod StoreRuns
pub mod SavingRuns
pub mod UrlRuns
