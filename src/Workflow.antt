-- ===== src/Workflow.antt =====
-- services/workflow-service/src/workflows: the approval of a workflow and its review cycles.
pub mod Enums
pub mod Entities
pub mod Errors
pub mod Store
pub mod Events
pub mod StateMachine
pub mod Approval
pub mod StepOrders
pub mod AdminCycle
pub mod Removal
pub mod Idempotency
pub mod Lifecycle
mod Tests
