-- ===== src/Workflow/AdminCycle/Finish.antt =====
-- `skipReviewCycle`, `finalizeCycle`, `addNote`, `closeWorkflow` and `cancelWorkflow` of
-- services/workflow-service/src/workflows/workflow-admin-cycle.service.ts
pub mod Access
use sgd_backend.Base.{
  ℕ, String, not, ◌||◌, Option, none, some, is_some, List, [], ◌∷◌, ◌++◌, map, length, is_empty,
  get_or, ◌==◌, trim, trimmed, if◌then◌else◌,
}
use sgd_backend.Workflow.Enums.{
  available_for_final_users, pending_review_cycle, closed, cancelled, same_status, is_in_progress,
  EventType, AttachmentType,
}
use sgd_backend.Workflow.Entities.{FileInfo, Workflow, AdminCycle, Attachment, Note}
use sgd_backend.Workflow.Errors.{
  Result, ok, ◌>>=◌, ◌>>◌, guard, or_fail, bad_request, forbidden, not_found, conflict, internal,
  workflow_not_found, cycle_not_found, wrong_status, not_a_final_user, cycle_not_completed,
  not_the_initiator, empty_note,
}
use sgd_backend.Workflow.Store.{
  Db, Env, Details, Message, NotificationType, find_in_org, update_workflow, emit, record_event,
}
use sgd_backend.Workflow.Events.{notify, event_of}
use sgd_backend.Workflow.StateMachine.{assert_valid_transition}
use sgd_backend.Workflow.AdminCycle.{is_final_user, find_cycle, save_note}

-- `findOne(… lock …)`, then the check of the status, then that of the user.
unfoldable pub own_workflow :
    (id user org : ℕ) → (Workflow → Result (Unit {0})) → Db → Result Workflow
own_workflow id user org check db = do
  w ← or_fail (find_in_org id org db) (not_found workflow_not_found)
  check w
  guard (is_final_user user w) (forbidden not_a_final_user)
  ok w

unfoldable pub skip_review_cycle : (id user org : ℕ) → Db → Result Db
unfolding own_workflow
skip_review_cycle id user org db = do
  w ←
      own_workflow id user org
        (λ w. guard (same_status w.status pending_review_cycle) (conflict (wrong_status w.status)))
        db
  let skipped =
      update_workflow w.id
        (λ w. record w { status = available_for_final_users; current_assigned_user_id = some user })
        db
  let logged =
      record_event (event_of EventType.workflow_approved user none w (Details.skipped user)) skipped
  ok (emit (Message.available_for_final_users w.id w.org_id (get_or w.final_user_ids [])) logged)

-- The method only reads. No filter maps the `EntityNotFoundError` of `findOneOrFail`: it ends as 500.
unfoldable pub finalize_cycle : (id cycle user : ℕ) → Db → Result AdminCycle
finalize_cycle id cycle user db = do
  c ← or_fail (find_cycle cycle id db) (internal cycle_not_found)
  guard (not (is_in_progress c.status)) (conflict cycle_not_completed)
  guard (c.initiated_by == user) (forbidden not_the_initiator)
  ok c

-- `AddWorkflowNoteDto`
pub record NoteDto : Type 0 where
  pub content : Option String
  pub attachments : Option (List FileInfo)

-- A note about the workflow as a whole.
abbrev pub general_note : ℕ → ℕ → ℕ → String → Note
general_note id workflow user content = record {
  id = id;
  workflow_id = workflow;
  cycle_id = none;
  admin_step_id = none;
  created_by = user;
  content = content;
}

-- The note, if there is one, and the files that come with it.
unfoldable pub save_management : Env → (workflow user : ℕ) → Option String → List FileInfo → Db → Db
save_management env workflow user content files db = record (noted content) {
  attachments = db.attachments ++ map (row content) files;
}
  where
    noted : Option String → Db
    noted none = db
    noted (some text) = save_note (general_note (env.uuid db.saved) workflow user text) db

    note_id : Option String → Option ℕ
    note_id none = none
    note_id (some text) = some (env.uuid db.saved)

    row : Option String → FileInfo → Attachment
    row content f = record {
      workflow_id = workflow;
      uploaded_by = user;
      document_id = f.storage_key;
      file = f;
      attachment_type = AttachmentType.management;
      note_id = note_id content;
    }

unfoldable pub add_note : Env → (id user org : ℕ) → NoteDto → Db → Result Db
unfolding own_workflow save_management
add_note env id user org dto db =
    let content = trimmed dto.content in
    let files = get_or dto.attachments [] in
    do
      guard (is_some content || not (is_empty files)) (bad_request empty_note)
      w ←
          own_workflow id user org
            (λ w.
              guard (same_status w.status available_for_final_users)
                (conflict (wrong_status w.status)))
            db
      ok (
          record_event
            (event_of (if is_some content then EventType.note_added else EventType.attachment_added)
              user none w (Details.noted content (length files)))
            (save_management env w.id user content files db))

-- The closing note, if there is one.
unfoldable pub save_closing_note : Env → (workflow user : ℕ) → Option String → Db → Db
save_closing_note env workflow user none db = db
save_closing_note env workflow user (some content) db =
    save_note (general_note (env.uuid db.saved) workflow user content) db

abbrev pub closed_by : (now user : ℕ) → Workflow → Workflow
closed_by now user w = record w {
  status = closed;
  closed_by = some user;
  closed_at = some now;
  current_assigned_user_id = some w.created_by;
  active_admin_cycle_id = none;
}

-- `closing_notes` is the text of `CloseWorkflowDto`.
unfoldable pub close_workflow : Env → (id user org : ℕ) → Option String → Db → Result Db
unfolding own_workflow
close_workflow env id user org closing_notes db = do
  w ← own_workflow id user org (λ w. assert_valid_transition w.status closed) db
  let noted = save_closing_note env w.id user (trimmed closing_notes) db
  let updated = update_workflow w.id (closed_by env.now user) noted
  let logged =
      record_event
        (event_of EventType.workflow_closed user (some w.created_by) w
          (Details.closing closing_notes user))
        updated
  let sent = emit (Message.closed w.id w.org_id user w.created_by) logged
  ok (notify NotificationType.workflow_closed (w.created_by ∷ []) w sent)

abbrev pub cancelled_by : (now user : ℕ) → Workflow → Workflow
cancelled_by now user w = record w {
  status = cancelled;
  cancelled_by = some user;
  cancelled_at = some now;
  current_assigned_user_id = some w.created_by;
  active_admin_cycle_id = none;
}

-- `reason` is the text of `CancelWorkflowDto`.
unfoldable pub cancel_workflow : Env → (id user org : ℕ) → String → Db → Result Db
unfolding own_workflow
cancel_workflow env id user org reason db = do
  w ← own_workflow id user org (λ w. assert_valid_transition w.status cancelled) db
  let noted = save_note (general_note (env.uuid db.saved) w.id user (trim reason)) db
  let updated = update_workflow w.id (cancelled_by env.now user) noted
  let logged =
      record_event
        (event_of EventType.workflow_cancelled user (some w.created_by) w
          (Details.cancelling reason user))
        updated
  let sent = emit (Message.cancelled w.id w.org_id user (some reason) (some w.created_by)) logged
  ok (notify NotificationType.workflow_cancelled (w.created_by ∷ []) w sent)
