-- ===== src/Workflow/Lifecycle/Histories.antt =====
-- Histories of calls: what becomes of each workflow's status.
use sgd_backend.Base.{
  ◌≡◌, refl, sym, subst, ap, ◌∙◌, ◌⊎◌, inl, inr, Bool-cases, List, [], ◌∷◌, Memᴰ, Memᴰ-All,
  Memᴰ-update_where, Distinct, Distinct-only, Distinct-update_where, update_where, arith,
}
use sgd_backend.Workflow.Enums.{WorkflowStatus}
use sgd_backend.Workflow.Entities.{Workflow}
use sgd_backend.Workflow.StateMachine.Graph.{◌⟶◌, ◌⟶*◌, here, then, IsTerminal, ⟶*-terminal}
use sgd_backend.Workflow.Errors.{Result, ok, err}
use sgd_backend.Workflow.Store.{Db, Env, has_id}
use sgd_backend.Workflow.Lifecycle.{
  Call, starts, approves, rejects, resubmits, creates_cycle, completes, forwards, skips, adds_note,
  closes, cancels, run, after, run_all,
}
use sgd_backend.Workflow.Lifecycle.Moves.{
  Moves, kept, moved, by_workflow_id, StaysOrMoves, start-Moves, approve-Moves, reject-Moves,
  resubmit-Moves,
}
use sgd_backend.Workflow.Lifecycle.AdminMoves.{
  skip_review_cycle-Moves, close_workflow-Moves, cancel_workflow-Moves, add_note-Moves,
  create_cycle-Moves, complete_step-Moves, forward_step-Moves,
}

run-Moves : (env : Env) (call : Call) (db db' : Db) → run env call db ≡ ok db' → Moves db db'
unfolding run
run-Moves env (starts id user) db db' h = start-Moves id user db db' h
run-Moves env (approves id user dto) db db' h = approve-Moves env id user dto db db' h
run-Moves env (rejects id user text) db db' h = reject-Moves id user text db db' h
run-Moves env (resubmits id user dto) db db' h = resubmit-Moves id user dto db db' h
run-Moves env (creates_cycle id user org dto) db db' h =
    create_cycle-Moves env id user org dto db db' h
run-Moves env (completes id cycle step user org dto) db db' h =
    complete_step-Moves env id cycle step user org dto db db' h
run-Moves env (forwards id cycle step user org dto reviewer) db db' h =
    forward_step-Moves env id cycle step user org dto reviewer db db' h
run-Moves env (skips id user org) db db' h = skip_review_cycle-Moves id user org db db' h
run-Moves env (adds_note id user org dto) db db' h = add_note-Moves env id user org dto db db' h
run-Moves env (closes id user org notes) db db' h =
    close_workflow-Moves env id user org notes db db' h
run-Moves env (cancels id user org reason) db db' h =
    cancel_workflow-Moves env id user org reason db db' h

-- The table of the workflows holds a row with the id of `w` that came from `w` by the edges of the
-- state machine, and its primary key is still unique.
pub record HasFollowed (w : Workflow) (db : Db) : Type 0 where
  pub is_unique : Distinct by_workflow_id db.workflows
  pub row : Workflow
  pub is_stored : Memᴰ row db.workflows
  pub same_id : row.id ≡ w.id
  pub path : w.status ⟶* row.status

⟶*-trans : {s t u : WorkflowStatus} → s ⟶* t → t ⟶* u → s ⟶* u
⟶*-trans here q = q
⟶*-trans (then e p) q = then e (⟶*-trans p q)

path_of : {s t : WorkflowStatus} → StaysOrMoves s t → s ⟶* t
path_of {s} (inl e) = subst (λ t. s ⟶* t) (sym e) here
path_of (inr e) = then e here

-- The row under the id of `w` in the second database: the same status, or one edge further.
pub record HasStepped (w : Workflow) (db : Db) : Type 0 where
  pub is_unique : Distinct by_workflow_id db.workflows
  pub row : Workflow
  pub is_stored : Memᴰ row db.workflows
  pub same_id : row.id ≡ w.id
  pub edge : StaysOrMoves w.status row.status

moved_row :
    (db : Db) (m : Workflow) (f : Workflow → Workflow) (w : Workflow)
    → Distinct by_workflow_id db.workflows
    → Memᴰ m db.workflows
    → ((x : Workflow) → (f x).id ≡ x.id)
    → StaysOrMoves m.status (f m).status
    → Memᴰ w db.workflows
    → (w' : Workflow) × Memᴰ w' (update_where (has_id m.id) f db.workflows)
      × (w'.id ≡ w.id)
      × StaysOrMoves w.status w'.status
moved_row db m f w d stored id_kept edge mem =
    let there = Memᴰ-update_where (has_id m.id) f db.workflows mem in
    elim (Bool-cases (has_id m.id w)) [
      | inl t ↦
          let same : w ≡ m =
            Memᴰ-All _ db.workflows mem (Distinct-only by_workflow_id db.workflows d stored)
              (ground arith) in
          (
            f w,
            rw t at there,
            id_kept w,
            subst (λ x. StaysOrMoves x.status (f x).status) (sym same) edge,
          )
      | inr u ↦ (w, rw u at there, refl, inl refl)
    ]

Moves-HasStepped :
    (db db' : Db) (w : Workflow)
    → Distinct by_workflow_id db.workflows
    → Memᴰ w db.workflows
    → Moves db db'
    → HasStepped w db'
Moves-HasStepped db db' w d mem (kept same) = record {
  is_unique = subst (Distinct by_workflow_id) (sym same) d;
  row = w;
  is_stored = subst (Memᴰ w) (sym same) mem;
  same_id = refl;
  edge = inl refl;
}
Moves-HasStepped db db' w d mem (moved m f stored id_kept edge same) =
    let (w', there, id, onward) = moved_row db m f w d stored id_kept edge mem in
    record {
      is_unique =
          subst (Distinct by_workflow_id) (sym same)
            (Distinct-update_where by_workflow_id (has_id m.id) f id_kept db.workflows d);
      row = w';
      is_stored = subst (Memᴰ w') (sym same) there;
      same_id = id;
      edge = onward;
    }

after-HasStepped :
    (env : Env) (call : Call) (db : Db) (w : Workflow)
    → Distinct by_workflow_id db.workflows
    → Memᴰ w db.workflows
    → (result : Result Db) → run env call db ≡ result
    → HasStepped w (after db result)
after-HasStepped env call db w d mem (ok db') h =
    Moves-HasStepped db db' w d mem (run-Moves env call db db' h)
after-HasStepped env call db w d mem (err e) h = Moves-HasStepped db db w d mem (kept refl)

-- After a history each workflow that was stored still is.
run_all-HasFollowed :
    (calls : List (Env × Call)) (db : Db) (w : Workflow)
    → Distinct by_workflow_id db.workflows
    → Memᴰ w db.workflows
    → HasFollowed w (run_all calls db)
unfolding run_all
run_all-HasFollowed [] db w d mem = record {
  is_unique = d;
  row = w;
  is_stored = mem;
  same_id = refl;
  path = here;
}
run_all-HasFollowed ((env, call) ∷ calls) db w d mem =
    let now = after-HasStepped env call db w d mem (run env call db) refl in
    let rest =
      run_all-HasFollowed calls (after db (run env call db)) now.row now.is_unique now.is_stored in
    record {
      is_unique = rest.is_unique;
      row = rest.row;
      is_stored = rest.is_stored;
      same_id = rest.same_id ∙ now.same_id;
      path = ⟶*-trans (path_of now.edge) rest.path;
    }

-- Let the primary key of the workflows be unique. Follow a stored workflow through any history of
-- calls of the approval and of the review cycle, by anyone, some failing and some not: under its
-- number there is one row before and one after any further call, and the status of the second is
-- that of the first or follows it by a single edge of the state machine.
pub run_all_by_edges :
    (calls : List (Env × Call)) (env : Env) (call : Call) (db : Db) (w : Workflow)
    → Distinct by_workflow_id db.workflows
    → Memᴰ w db.workflows
    → let before = run_all calls db in
      let next = after before (run env call before) in
      (row : Workflow) × (row' : Workflow) × Memᴰ row before.workflows
      × (row.id ≡ w.id)
      × Memᴰ row' next.workflows
      × (row'.id ≡ w.id)
      × ((row'.status ≡ row.status) ⊎ (row.status ⟶ row'.status))
      × Distinct by_workflow_id next.workflows
run_all_by_edges calls env call db w d mem =
    let before = run_all-HasFollowed calls db w d mem in
    let next =
      after-HasStepped env call (run_all calls db) before.row before.is_unique before.is_stored
        (run env call (run_all calls db)) refl in
    (
      before.row,
      next.row,
      before.is_stored,
      before.same_id,
      next.is_stored,
      next.same_id ∙ before.same_id,
      next.edge,
      next.is_unique,
    )

-- Let the primary key be unique. A workflow whose status is REJECTED, CLOSED or CANCELLED has the
-- same status in the row stored under its id after any history of calls: no operation brings it back.
pub run_all-terminal :
    (calls : List (Env × Call)) (db : Db) (w w' : Workflow)
    → Distinct by_workflow_id db.workflows
    → Memᴰ w db.workflows
    → IsTerminal w.status
    → Memᴰ w' (run_all calls db).workflows
    → w'.id ≡ w.id
    → w'.status ≡ w.status
run_all-terminal calls db w w' d mem ends mem' e =
    let later = run_all-HasFollowed calls db w d mem in
    let only = Memᴰ-All _ _ mem' (Distinct-only by_workflow_id _ later.is_unique later.is_stored) in
    ap (λ y. y.status) (only (e ∙ sym later.same_id)) ∙ ⟶*-terminal ends later.path
