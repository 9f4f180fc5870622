-- ===== src/Workflow/Store/Laws.antt =====
-- Reads after writes: what a lookup finds in an updated table.
use sgd_backend.Base.{
  ℕ, ◌≡◌, sym, subst, ◌∙◌, true, some, List, arith, find_if, find_if-passes, find_if-update_where,
  update_where, select, select-update_where,
}
use sgd_backend.Workflow.Entities.{Workflow, ApprovalStep}
use sgd_backend.Workflow.Store.{Db, has_id, is_live, is_step, in_workflow, find_workflow}

has_id-is_live : (id : ℕ) (w : Workflow) → is_live id w ≡ true → has_id id w ≡ true
has_id-is_live id w h = ground arith

pub find_workflow-id : (id : ℕ) (db : Db) {w : Workflow} → find_workflow id db ≡ some w → w.id ≡ id
unfolding find_workflow
find_workflow-id id db {w} e =
    let h : is_live id w ≡ true = find_if-passes (is_live id) db.workflows e in ground arith

-- An update that keeps the id and the deletion mark is what the next lookup finds.
find_if-update_live :
    (id : ℕ) (f : Workflow → Workflow)
    → ((x : Workflow) → is_live id (f x) ≡ is_live id x)
    → (ws : List Workflow) {w : Workflow} → find_if (is_live id) ws ≡ some w
    → find_if (is_live id) (update_where (has_id id) f ws) ≡ some (f w)
find_if-update_live id f same ws {w} e =
    let passes = has_id-is_live id w (find_if-passes (is_live id) ws e) in
    find_if-update_where (is_live id) (has_id id) f same ws ∙ rw e (rw passes)

-- The same, for the id that the row itself holds.
pub find_if-updated :
    (id : ℕ) (db : Db) (f : Workflow → Workflow)
    → ((x : Workflow) → is_live id (f x) ≡ is_live id x)
    → {w : Workflow} → find_workflow id db ≡ some w
    → find_if (is_live id) (update_where (has_id w.id) f db.workflows) ≡ some (f w)
unfolding find_workflow
find_if-updated id db f same {w} e =
    subst (λ i. find_if (is_live id) (update_where (has_id i) f db.workflows) ≡ some (f w))
      (sym (find_workflow-id id db e)) (find_if-update_live id f same db.workflows e)

pub select-update_step :
    (id step : ℕ) (f : ApprovalStep → ApprovalStep)
    → ((x : ApprovalStep) → in_workflow id (f x) ≡ in_workflow id x)
    → (steps : List ApprovalStep)
    → select (in_workflow id) (update_where (is_step step) f steps)
      ≡ update_where (is_step step) f (select (in_workflow id) steps)
select-update_step id step f same steps =
    select-update_where (in_workflow id) (is_step step) f same steps
