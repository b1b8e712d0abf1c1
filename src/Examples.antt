-- ===== src/Examples.antt =====
-- Runs at concrete inputs of the theorems.
mod PathExamples
mod TreeExamples
mod StoreExamples
mod HistoryExamples
mod PersistenceExamples
mod Samples
mod SidecarExamples
mod EntityExamples
mod AdmissionExamples
mod YjsExamples
mod CrdtExamples
mod DraftExamples
