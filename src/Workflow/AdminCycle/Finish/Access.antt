-- ===== src/Workflow/AdminCycle/Finish/Access.antt =====
-- Who may decide about a workflow whose approval is over.
use sgd_backend.Base.{ℕ, ◌≡◌, ◌≢◌, String, false, some, Option, arith}
use sgd_backend.Workflow.Entities.{Workflow}
use sgd_backend.Workflow.Errors.{Result, ok}
use sgd_backend.Workflow.Store.{Db, Env, find_in_org}
use sgd_backend.Workflow.AdminCycle.{is_final_user}
use sgd_backend.Workflow.AdminCycle.Create.{CreateCycleDto, may_create, create_cycle}
use sgd_backend.Workflow.AdminCycle.Finish.{
  NoteDto, own_workflow, skip_review_cycle, add_note, close_workflow, cancel_workflow,
}

module _ (id user org : ℕ) (db : Db) (w : Workflow) (found : find_in_org id org db ≡ some w)
    (other : is_final_user user w ≡ false) where
  own_workflow-ne-ok :
      (check : Workflow → Result (Unit {0})) (v : Workflow)
      → own_workflow id user org check db ≢ ok v
  unfolding own_workflow
  own_workflow-ne-ok check v h = ground (arith, found, other)

  may_create-ne-ok : may_create user w ≢ ok tt
  unfolding may_create
  may_create-ne-ok h = ground (arith, other)

  -- Nobody but its final users starts or skips a review cycle of a workflow, adds a note to it as a
  -- whole, closes it or cancels it, whatever its status.
  pub only_final_users_decide :
      (env : Env) (dto : CreateCycleDto) (note : NoteDto) (notes : Option String) (reason : String)
      (db' : Db)
      → (create_cycle env id user org dto db ≢ ok db')
        × (skip_review_cycle id user org db ≢ ok db')
        × (add_note env id user org note db ≢ ok db')
        × (close_workflow env id user org notes db ≢ ok db')
        × (cancel_workflow env id user org reason db ≢ ok db')
  unfolding create_cycle skip_review_cycle add_note close_workflow cancel_workflow
  only_final_users_decide env dto note notes reason db' = (
    λ h. let no = may_create-ne-ok in ground (arith, found),
    λ h. let no = own_workflow-ne-ok in ground arith,
    λ h. let no = own_workflow-ne-ok in ground arith,
    λ h. let no = own_workflow-ne-ok in ground arith,
    λ h. let no = own_workflow-ne-ok in ground arith,
  )
