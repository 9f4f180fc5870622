-- ===== src/Workflow/AdminCycle/Forward/Steps.antt =====
-- What a successful `forwardStep` has read and written.
use sgd_backend.Base.{ℕ, suc, ◌≡◌, not, includes, some, List, []}
use sgd_backend.Workflow.Enums.{admin_cycle_in_progress, same_status}
use sgd_backend.Workflow.Entities.{Workflow, AdminCycle, AdminStep}
use sgd_backend.Workflow.Errors.{
  ok, guard, or_fail, bad_request, not_found, conflict, workflow_not_found, wrong_status,
  optional_cannot_forward, reviewer_not_allowed, next_reviewer_is_same,
}
use sgd_backend.Workflow.Errors.Laws.{>>=-eq-ok, or_fail-eq-ok}
use sgd_backend.Workflow.Store.{Db, Env, find_in_org}
use sgd_backend.Workflow.AdminCycle.{StepInput, leave_input, admin_steps_of}
use sgd_backend.Workflow.AdminCycle.Complete.{find_own_step}
use sgd_backend.Workflow.AdminCycle.Forward.{
  is_followed_by, shift_rows, commit_forward, forward_step,
}

-- The database after the notes and the files of the reviewer.
abbrev pub with_input : Env → ℕ → StepInput → Workflow → AdminCycle → AdminStep → Db → Db
with_input env user dto w c s db = leave_input env w.id c.id s.id user dto db

pub record Forwards (env : Env) (id cycle step user org : ℕ) (dto : StepInput) (reviewer : ℕ)
    (db db' : Db) : Type 0 where
  pub workflow : Workflow
  pub own_cycle : AdminCycle
  pub own_step : AdminStep
  pub shifted : List AdminStep
  pub found : find_in_org id org db ≡ some workflow
  pub owned : find_own_step id cycle step user db ≡ ok (own_cycle, own_step)
  pub room :
      shift_rows cycle
        (suc own_step.step_order)
        []
        (with_input env user dto workflow own_cycle own_step db).admin_steps
      ≡ ok shifted
  pub result :
      commit_forward env user dto reviewer workflow own_cycle own_step shifted
        (with_input env user dto workflow own_cycle own_step db)
      ≡ db'

of_ok : {a b : Db} → ok a ≡ ok b → a ≡ b
of_ok e = cc

pub forward_step-ok :
    (env : Env) (id cycle step user org : ℕ) (dto : StepInput) (reviewer : ℕ) (db db' : Db)
    → forward_step env id cycle step user org dto reviewer db ≡ ok db'
    → Forwards env id cycle step user org dto reviewer db db'
unfolding forward_step
forward_step-ok env id cycle step user org dto reviewer db db' h =
    let (w, read, h) =
      >>=-eq-ok (or_fail (find_in_org id org db) (not_found workflow_not_found)) _ h in
    let (_, status, h) =
      >>=-eq-ok
        (guard (same_status w.status admin_cycle_in_progress) (conflict (wrong_status w.status))) _
        h in
    let ((c, s), own, h) = >>=-eq-ok (find_own_step id cycle step user db) _ h in
    let (_, required, h) =
      >>=-eq-ok (guard (not s.is_optional) (bad_request optional_cannot_forward)) _ h in
    let (_, allowed, h) =
      >>=-eq-ok
        (guard (includes c.allowed_optional_reviewer_ids reviewer)
          (bad_request reviewer_not_allowed))
        _ h in
    let (_, other, h) =
      >>=-eq-ok
        (guard (not (is_followed_by reviewer s (admin_steps_of cycle db)))
          (bad_request next_reviewer_is_same))
        _ h in
    let (shifted, room, done) =
      >>=-eq-ok
        (shift_rows cycle (suc s.step_order) [] (with_input env user dto w c s db).admin_steps) _
        h in
    record {
      workflow = w;
      own_cycle = c;
      own_step = s;
      shifted = shifted;
      found = or_fail-eq-ok (find_in_org id org db) _ read;
      owned = own;
      room = room;
      result = of_ok done;
    }
