-- ===== src/Workflow/Tests/Approvals.antt =====
-- Approvals and rejections on a workflow with two approvers.
use sgd_backend.Base.{
  ◌≡◌, inl, ◌≤◌, refl, true, some, none, [], ◌∷◌, Memᴰ, All, arith, find_if, select, sort,
  update_where, count_above, ◌==◌,
}
use sgd_backend.Workflow.Enums.{pending_approval, StepStatus, rejected, pending_review_cycle}
use sgd_backend.Workflow.Entities.{Workflow, ApprovalStep}
use sgd_backend.Workflow.Errors.{ok, err, conflict, invalid_transition}
use sgd_backend.Workflow.Store.{Db, find_workflow, steps_of}
use sgd_backend.Workflow.Approval.{assigned_to, with_status, start_approval}
use sgd_backend.Workflow.Approval.Approve.{next_step, resolve_review_cycle, final_users, approve}
use sgd_backend.Workflow.Approval.Reject.{RejectReading, read_reject, commit_reject, reject}
use sgd_backend.Workflow.Approval.Chain.{IsChain}
use sgd_backend.Workflow.Approval.Turns.{approve-next, approve-last}
use sgd_backend.Workflow.Approval.Start.{IsReady, begun, start_approval-IsChain}
use sgd_backend.Workflow.Approval.Rounds.{Finishes, approve_in_turn-Finishes}
use sgd_backend.Workflow.Approval.Rejection.{
  reject-IsChain, only_assigned_decides, late_reject_overrides,
}
use sgd_backend.Workflow.Tests.{
  env, step, begun_row, first, second, begun_db, no_comment, draft_row, draft_db, last_row, last,
  last_db,
}

begun_found : find_workflow 1 begun_db ≡ some begun_row
unfolding find_workflow find_if
begun_found = refl

begun-IsChain : IsChain begun_row (steps_of 1 begun_db) first
unfolding steps_of select
begun-IsChain = record {
  status = refl;
  order = refl;
  assigned = refl;
  listed = Memᴰ.head refl;
  fits = (
    (λ h. absurd (omega arith), λ h. refl, λ h. absurd (omega arith)),
    ((λ h. absurd (omega arith), λ h. absurd (omega arith), λ h. refl), tt),
  );
  ids = ((λ h. absurd (omega arith), tt), (tt, tt));
  orders = ((λ h. absurd (omega arith), tt), (tt, tt));
}

last_found : find_workflow 1 last_db ≡ some last_row
unfolding find_workflow find_if
last_found = refl

last-IsChain : IsChain last_row (steps_of 1 last_db) last
unfolding steps_of select
last-IsChain = record {
  status = refl;
  order = refl;
  assigned = refl;
  listed = Memᴰ.tail (Memᴰ.head refl);
  fits = (
    (λ h. refl, λ h. absurd (omega arith), λ h. absurd (omega arith)),
    ((λ h. absurd (omega arith), λ h. refl, λ h. absurd (omega arith)), tt),
  );
  ids = ((λ h. absurd (omega arith), tt), (tt, tt));
  orders = ((λ h. absurd (omega arith), tt), (tt, tt));
}

one_left : count_above (λ s. s.step_order) 1 (steps_of 1 begun_db) ≡ 1
unfolding steps_of select count_above
one_left = refl

second_follows : next_step 1 (steps_of 1 begun_db) ≡ some second
unfolding next_step steps_of select find_if sort
second_follows = refl

none_follows : next_step 2 (steps_of 1 last_db) ≡ none
unfolding next_step steps_of select find_if sort
none_follows = refl

review_asked : resolve_review_cycle env last_row ≡ ok true
unfolding resolve_review_cycle
review_asked = refl

users_chosen : final_users env last_row ≡ ok (31 ∷ 32 ∷ [])
unfolding final_users
users_chosen = refl

approve_in_turn-Finishes_example : Finishes env 1 no_comment true 31 (32 ∷ []) 2 begun_db
approve_in_turn-Finishes_example =
    approve_in_turn-Finishes env 1 no_comment true 31 (32 ∷ []) 1 begun_db begun_row first
      begun_found (refl, refl) begun-IsChain one_left

approve-next_example :
    (db' : Db) × (approve env 1 21 no_comment begun_db ≡ ok db')
    × (find_workflow 1 db' ≡ some (assigned_to second begun_row))
    × IsChain
        (assigned_to second begun_row)
        (steps_of 1 db')
        (with_status StepStatus.pending second)
approve-next_example =
    approve-next env 1 no_comment begun_db begun_row first begun_found begun-IsChain second
      second_follows

approve-last_example :
    (db' : Db) × (approve env 1 22 no_comment last_db ≡ ok db')
    × (find_workflow 1 db'
        ≡ some (record last_row {
          status = pending_review_cycle;
          current_approval_step_order = none;
          current_assigned_user_id = some 31;
          final_user_ids = some (31 ∷ 32 ∷ []);
          review_cycle_enabled = true;
        }))
    × All (λ x. x.status ≡ StepStatus.approved) (steps_of 1 db')
approve-last_example =
    approve-last env 1 no_comment last_db last_row last last_found last-IsChain true (31 ∷ 32 ∷ [])
      none_follows review_asked users_chosen

draft_found : find_workflow 1 draft_db ≡ some draft_row
unfolding find_workflow find_if
draft_found = refl

draft_steps : steps_of 1 draft_db ≡ step 11 21 1 StepStatus.waiting ∷ second ∷ []
unfolding steps_of select
draft_steps = refl

draft-IsReady : IsReady draft_row (steps_of 1 draft_db)
unfolding steps_of select
draft-IsReady = record {
  status = refl;
  validated = refl;
  waiting = (refl, (refl, tt));
  ids = ((λ h. absurd (omega arith), tt), (tt, tt));
  orders = ((λ h. absurd (omega arith), tt), (tt, tt));
}

start_approval-IsChain_example :
    (s : ApprovalStep) × (db' : Db) × (start_approval 1 7 draft_db ≡ ok db')
    × (find_workflow 1 db' ≡ some (begun s draft_row))
    × IsChain (begun s draft_row) (steps_of 1 db') (with_status StepStatus.pending s)
    × All (λ y. s.step_order ≤ y.step_order) (steps_of 1 draft_db)
start_approval-IsChain_example =
    start_approval-IsChain 1 draft_db draft_row draft_found (step 11 21 1 StepStatus.waiting)
      (second ∷ []) draft_steps draft-IsReady

first_approval : (db' : Db) × (approve env 1 21 no_comment begun_db ≡ ok db')
first_approval =
    let (db', done, waits, chain) =
      approve-next env 1 no_comment begun_db begun_row first begun_found begun-IsChain second
        second_follows in
    (db', done)

only_assigned_decides_example :
    (w : Workflow) × (find_workflow 1 begun_db ≡ some w)
    × (w.status ≡ pending_approval)
    × (w.current_assigned_user_id ≡ some 21)
only_assigned_decides_example =
    only_assigned_decides env 1 21 no_comment "no" begun_db first_approval.0 (inl first_approval.1)

reject-IsChain_example :
    (db' : Db) × (reject 1 21 "no" begun_db ≡ ok db')
    × (find_workflow 1 db'
        ≡ some (record begun_row {
          status = rejected;
          rejected_at_step_id = some 11;
          current_assigned_user_id = none;
        }))
    × (steps_of 1 db'
        ≡ update_where
            (λ x. x.id == 11)
            (λ x. record x { status = StepStatus.refused })
            (steps_of 1 begun_db))
reject-IsChain_example = reject-IsChain 1 begun_db begun_row first "no" begun_found begun-IsChain

late_reject_overrides_example :
    (r : RejectReading) × (between : Db) × (read_reject 1 22 last_db ≡ ok r)
    × (approve env 1 22 no_comment last_db ≡ ok between)
    × (reject 1 22 "no" between ≡ err (conflict (invalid_transition pending_review_cycle rejected)))
    × (find_workflow 1 (commit_reject 22 "no" r between)
        ≡ some (record last_row {
          status = rejected;
          rejected_at_step_id = some 12;
          current_assigned_user_id = none;
          current_approval_step_order = none;
          final_user_ids = some (31 ∷ 32 ∷ []);
          review_cycle_enabled = true;
        }))
late_reject_overrides_example =
    late_reject_overrides env 1 no_comment last_db last_row last "no" true (31 ∷ 32 ∷ []) last_found
      last-IsChain none_follows review_asked users_chosen
