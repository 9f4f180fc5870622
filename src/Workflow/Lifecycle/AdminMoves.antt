-- ===== src/Workflow/Lifecycle/AdminMoves.antt =====
-- The operations of the review cycle and of the end of a workflow: each keeps the rows of the
-- workflows, or moves one of them along an edge of the state machine.
use sgd_backend.Base.{
  ℕ, ◌≡◌, refl, ap, subst, inl, inr, not, ◌||◌, is_some, is_empty, some, none, Option, String, List,
  [], Memᴰ, head?, map, sort, get_or, trimmed, update_where, arith,
}
use sgd_backend.Workflow.Enums.{
  available_for_final_users, admin_cycle_in_progress, pending_review_cycle, same_status,
}
use sgd_backend.Workflow.Entities.{FileInfo, Workflow, AdminCycle, AdminStep}
use sgd_backend.Workflow.Errors.{
  Result, ok, guard, or_fail, bad_request, not_found, conflict, empty_note, wrong_status,
  orders_not_consecutive, workflow_not_found,
}
use sgd_backend.Workflow.Store.{Db, Env, has_id, find_in_org}
use sgd_backend.Workflow.StateMachine.{assert_valid_transition}
use sgd_backend.Workflow.StateMachine.Graph.{◌⟶◌, skip_review, assert_valid_transition_sound}
use sgd_backend.Workflow.StepOrders.{check_orders}
use sgd_backend.Workflow.AdminCycle.{StepInput, leave_input, admin_steps_of}
use sgd_backend.Workflow.AdminCycle.Reads.{leave_input-keeps}
use sgd_backend.Workflow.AdminCycle.Create.{
  CreateCycleDto, AdminStepInput, input_order, may_create, commit_create, create_cycle,
}
use sgd_backend.Workflow.AdminCycle.Complete.{
  find_own_step, next_admin_step, returned_to, commit_last_step, commit_next_step, complete_step,
}
use sgd_backend.Workflow.AdminCycle.Forward.{commit_forward, forward_step}
use sgd_backend.Workflow.AdminCycle.Forward.Steps.{forward_step-ok}
use sgd_backend.Workflow.AdminCycle.Finish.{
  NoteDto, own_workflow, skip_review_cycle, save_management, add_note, save_closing_note,
  close_workflow, cancel_workflow,
}
use sgd_backend.Workflow.Errors.Laws.{>>=-eq-ok, or_fail-eq-ok}
use sgd_backend.Workflow.Lifecycle.Reads.{find_in_org-Memᴰ}
use sgd_backend.Workflow.Lifecycle.Moves.{Moves, kept, moved, of_ok}

own_workflow-ok :
    (id user org : ℕ) (check : Workflow → Result (Unit {0})) (db : Db) (w : Workflow)
    → own_workflow id user org check db ≡ ok w
    → (find_in_org id org db ≡ some w) × (check w ≡ ok tt)
unfolding own_workflow
own_workflow-ok id user org check db w h = (ground arith, ground arith)

pub skip_review_cycle-Moves :
    (id user org : ℕ) (db db' : Db) → skip_review_cycle id user org db ≡ ok db' → Moves db db'
unfolding skip_review_cycle
skip_review_cycle-Moves id user org db db' h =
    let (w, own, done) = >>=-eq-ok (own_workflow id user org _ db) _ h in
    let (found, checked) = own_workflow-ok id user org _ db w own in
    let status : w.status ≡ pending_review_cycle = ground arith in
    subst (Moves db) (of_ok done)
      (moved w _ (find_in_org-Memᴰ id org db found) (λ x. refl) (inr (rw status skip_review)) refl)

save_closing_note-workflows :
    (env : Env) (workflow user : ℕ) (text : Option String) (db : Db)
    → (save_closing_note env workflow user text db).workflows ≡ db.workflows
unfolding save_closing_note
save_closing_note-workflows env workflow user none db = refl
save_closing_note-workflows env workflow user (some t) db = refl

pub close_workflow-Moves :
    (env : Env) (id user org : ℕ) (notes : Option String) (db db' : Db)
    → close_workflow env id user org notes db ≡ ok db'
    → Moves db db'
unfolding close_workflow
close_workflow-Moves env id user org notes db db' h =
    let (w, own, done) = >>=-eq-ok (own_workflow id user org _ db) _ h in
    let (found, checked) = own_workflow-ok id user org _ db w own in
    subst (Moves db) (of_ok done) (
      moved w _ (find_in_org-Memᴰ id org db found) (λ x. refl)
        (inr (assert_valid_transition_sound _ _ checked))
        (ap (update_where (has_id w.id) _)
          (save_closing_note-workflows env w.id user (trimmed notes) db)))

pub cancel_workflow-Moves :
    (env : Env) (id user org : ℕ) (reason : String) (db db' : Db)
    → cancel_workflow env id user org reason db ≡ ok db'
    → Moves db db'
unfolding cancel_workflow
cancel_workflow-Moves env id user org reason db db' h =
    let (w, own, done) = >>=-eq-ok (own_workflow id user org _ db) _ h in
    let (found, checked) = own_workflow-ok id user org _ db w own in
    subst (Moves db) (of_ok done) (
      moved w _ (find_in_org-Memᴰ id org db found) (λ x. refl)
        (inr (assert_valid_transition_sound _ _ checked)) refl)

save_management-workflows :
    (env : Env) (workflow user : ℕ) (content : Option String) (files : List FileInfo) (db : Db)
    → (save_management env workflow user content files db).workflows ≡ db.workflows
unfolding save_management
save_management-workflows env workflow user none files db = refl
save_management-workflows env workflow user (some t) files db = refl

pub add_note-Moves :
    (env : Env) (id user org : ℕ) (dto : NoteDto) (db db' : Db)
    → add_note env id user org dto db ≡ ok db'
    → Moves db db'
unfolding add_note
add_note-Moves env id user org dto db db' h =
    let (_, given, h) =
      >>=-eq-ok
        (guard (is_some (trimmed dto.content) || not (is_empty (get_or dto.attachments [])))
          (bad_request empty_note))
        _ h in
    let (w, own, done) =
      >>=-eq-ok
        (own_workflow id user org
          (λ w.
            guard (same_status w.status available_for_final_users)
              (conflict (wrong_status w.status)))
          db)
        _ h in
    subst (Moves db) (of_ok done) (
      kept (
        save_management-workflows env w.id user (trimmed dto.content) (get_or dto.attachments [])
          db))

create_cycle-Moves_of :
    (env : Env) (user : ℕ) (dto : CreateCycleDto) (first : AdminStepInput) (w : Workflow) (db : Db)
    → Memᴰ w db.workflows
    → may_create user w ≡ ok tt
    → Moves db (commit_create env user dto first w db)
unfolding commit_create may_create
create_cycle-Moves_of env user dto first w db m may =
    let (_, edge, _) = >>=-eq-ok (assert_valid_transition w.status admin_cycle_in_progress) _ may in
    moved w _ m (λ x. refl) (inr (assert_valid_transition_sound _ _ edge)) refl

pub create_cycle-Moves :
    (env : Env) (id user org : ℕ) (dto : CreateCycleDto) (db db' : Db)
    → create_cycle env id user org dto db ≡ ok db'
    → Moves db db'
unfolding create_cycle
create_cycle-Moves env id user org dto db db' h =
    let (_, checked, h) = >>=-eq-ok (check_orders (map input_order dto.steps)) _ h in
    let (first, found_first, h) =
      >>=-eq-ok (or_fail (head? (sort input_order dto.steps)) (bad_request orders_not_consecutive))
        _ h in
    let (w, read, h) =
      >>=-eq-ok (or_fail (find_in_org id org db) (not_found workflow_not_found)) _ h in
    let (_, may, done) = >>=-eq-ok (may_create user w) _ h in
    subst (Moves db) (of_ok done) (
      create_cycle-Moves_of env user dto first w db
        (find_in_org-Memᴰ id org db (or_fail-eq-ok (find_in_org id org db) _ read)) may)

last_step-Moves :
    (env : Env) (user : ℕ) (dto : StepInput) (w : Workflow) (c : AdminCycle) (s : AdminStep)
    (db : Db)
    → Memᴰ w db.workflows
    → w.status ⟶ available_for_final_users
    → Moves db (commit_last_step env user dto w c s db)
unfolding commit_last_step
last_step-Moves env user dto w c s db m e =
    moved w (returned_to c.initiated_by) m (λ x. refl) (inr e)
      (ap (update_where (has_id w.id) (returned_to c.initiated_by))
        (leave_input-keeps env w.id c.id s.id user dto db).0)

next_step-Moves :
    (env : Env) (user : ℕ) (dto : StepInput) (w : Workflow) (c : AdminCycle) (s n : AdminStep)
    (db : Db)
    → Memᴰ w db.workflows
    → Moves db (commit_next_step env user dto w c s n db)
unfolding commit_next_step
next_step-Moves env user dto w c s n db m =
    moved w (λ w. record w { current_assigned_user_id = some n.user_id }) m (λ x. refl) (inl refl)
      (ap (update_where (has_id w.id) _) (leave_input-keeps env w.id c.id s.id user dto db).0)

either_step-Moves :
    (env : Env) (user : ℕ) (dto : StepInput) (w : Workflow) (c : AdminCycle) (s : AdminStep)
    (next : Option AdminStep) (db : Db)
    → Memᴰ w db.workflows
    → w.status ⟶ available_for_final_users
    → Moves db (elim next [
      | none ↦ commit_last_step env user dto w c s db
      | some n ↦ commit_next_step env user dto w c s n db
    ])
either_step-Moves env user dto w c s none db m e = last_step-Moves env user dto w c s db m e
either_step-Moves env user dto w c s (some n) db m e = next_step-Moves env user dto w c s n db m

pub complete_step-Moves :
    (env : Env) (id cycle step user org : ℕ) (dto : StepInput) (db db' : Db)
    → complete_step env id cycle step user org dto db ≡ ok db'
    → Moves db db'
unfolding complete_step
complete_step-Moves env id cycle step user org dto db db' h =
    let (w, read, h) =
      >>=-eq-ok (or_fail (find_in_org id org db) (not_found workflow_not_found)) _ h in
    let m = find_in_org-Memᴰ id org db (or_fail-eq-ok (find_in_org id org db) _ read) in
    let (_, edge, h) = >>=-eq-ok (assert_valid_transition w.status available_for_final_users) _ h in
    let ((c, s), own, done) = >>=-eq-ok (find_own_step id cycle step user db) _ h in
    subst (Moves db) (of_ok done) (
      either_step-Moves env user dto w c s (next_admin_step s.step_order (admin_steps_of cycle db))
        db m (assert_valid_transition_sound _ _ edge))

commit_forward-Moves :
    (env : Env) (user : ℕ) (dto : StepInput) (reviewer : ℕ) (w : Workflow) (c : AdminCycle)
    (s : AdminStep) (shifted : List AdminStep) (db before : Db)
    → db.workflows ≡ before.workflows
    → Memᴰ w before.workflows
    → Moves before (commit_forward env user dto reviewer w c s shifted db)
unfolding commit_forward
commit_forward-Moves env user dto reviewer w c s shifted db before same m =
    moved w (λ w. record w { current_assigned_user_id = some reviewer }) m (λ x. refl) (inl refl)
      (ap (update_where (has_id w.id) _) same)

pub forward_step-Moves :
    (env : Env) (id cycle step user org : ℕ) (dto : StepInput) (reviewer : ℕ) (db db' : Db)
    → forward_step env id cycle step user org dto reviewer db ≡ ok db'
    → Moves db db'
forward_step-Moves env id cycle step user org dto reviewer db db' h =
    let f = forward_step-ok env id cycle step user org dto reviewer db db' h in
    let left = leave_input env f.workflow.id f.own_cycle.id f.own_step.id user dto db in
    subst (Moves db) f.result (
      commit_forward-Moves env user dto reviewer f.workflow f.own_cycle f.own_step f.shifted left db
        (leave_input-keeps env f.workflow.id f.own_cycle.id f.own_step.id user dto db).0
        (find_in_org-Memᴰ id org db f.found))
