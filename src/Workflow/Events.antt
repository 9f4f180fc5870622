-- ===== src/Workflow/Events.antt =====
-- The timeline events and notifications of the services, built from the row of the workflow.
use sgd_backend.Base.{ℕ, Option, List}
use sgd_backend.Workflow.Enums.{EventType}
use sgd_backend.Workflow.Entities.{Workflow}
use sgd_backend.Workflow.Store.{Db, Details, Message, NotificationType, EventParams, emit}

abbrev pub notify : NotificationType → List ℕ → Workflow → Db → Db
notify kind recipients w db =
    emit
      (Message.notification_send (record {
        kind = kind;
        recipients = recipients;
        org_id = w.org_id;
        workflow_id = w.id;
        workflow_title = w.title;
      }))
      db

abbrev pub event_of : EventType → ℕ → Option ℕ → Workflow → Details → EventParams
event_of kind actor target w details = record {
  workflow_id = w.id;
  org_id = w.org_id;
  event_type = kind;
  actor_id = actor;
  target_user_id = target;
  resource_name = w.title;
  metadata = details;
}
