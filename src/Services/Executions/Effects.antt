-- ===== src/Services/Executions/Effects.antt =====
-- What each call of the execution service does to the store: nothing, or the writes of an execution and
-- of its plan under the guards that the call has passed.
use qa_platform_learning.Common.Tests.{
  ℕ, ◌≡◌, refl, ◌⊎◌, inl, inr, true, false, not, ◌||◌, String, some, List, [], ◌∷◌, map, arith,
  nat_keyed, Bool-cases, true_of_not, ◌==◌,
}
use qa_platform_learning.Common.Lists.{any}
use qa_platform_learning.Common.Dict.{lookup, contains}
use qa_platform_learning.Common.Result.{ok}
use qa_platform_learning.Common.Holds.{
  Holds, Holds-pure, Holds-raise, Stays, bind-any, bind-find, bind-gets, bind-raise_if,
}
use qa_platform_learning.Services.Repository.{
  put, drop_item, no_clash, bind-create, bind-update, bind-delete,
}
use qa_platform_learning.Services.Reads.{Still, bind-reads, bind-update_there, Owned}
use qa_platform_learning.Services.Models.Status.{
  PlanStatus, ExecutionStatus, ResultStatus, plan_status_keyed, execution_status_keyed,
  result_status_keyed,
}
use qa_platform_learning.Services.Models.Records.{Plan, Execution, CaseResult}
use qa_platform_learning.Services.Store.{Store, plans_repo, executions_repo, bind-active}
use qa_platform_learning.Services.Plans.Operations.{is_executed, with_status, set_status}
use qa_platform_learning.Services.Plans.Effects.{ActiveProject}
use qa_platform_learning.Services.Executions.Operations.{
  new_results, new_execution, create_execution, started, finished, settle, start_execution,
  is_unfinished, complete_execution, cancel_execution, move_execution, transition_execution, judge,
  with_results, update_case_result, delete_execution,
}

pub new_results-Still : (ids : List ℕ) (s : Store) → Holds (Still s) (new_results ids) s
unfolding new_results
new_results-Still [] s = Holds-pure _ s refl
new_results-Still (id ∷ ids) s =
    bind-find _ _ _ s (λ _. refl)
      λ c _. bind-reads _ _ s (new_results-Still ids s) (λ _. refl) λ rest _. Holds-pure _ s refl

-- The store after an execution that is there and its plan are written.
abbrev pub both : Execution → Plan → Store → Store
both x p s = put executions_repo x (put plans_repo p s)

module _ (P : Store → Type 0) where
  pub create_execution-effect :
      (plan_id now fresh_id : ℕ) (s : Store)
      → P s
      → ((p : Plan) (results : List CaseResult)
          → lookup plan_id s.plans ≡ some p
          → ActiveProject p.project_id s
          → p.status ≡ PlanStatus.ready
          → is_executed p.id s ≡ false
          → new_results p.case_ids s ≡ (ok results, s)
          → contains fresh_id s.executions ≡ false
          → P (put executions_repo (new_execution p results now fresh_id) s))
      → Holds (Stays P) (create_execution plan_id now fresh_id) s
  unfolding create_execution
  create_execution-effect plan_id now fresh_id s h write =
      bind-find _ _ _ s (λ _. h)
        λ p found.
          bind-active _ _ s (λ _. h)
            λ project at runs.
              bind-raise_if _ _ _ s (λ _. h)
                λ stands. bind-gets _ _ s (
                  bind-raise_if _ _ _ s (λ _. h)
                    λ unused.
                      bind-reads _ _ s (new_results-Still p.case_ids s) (λ _. h)
                        λ results made.
                          bind-create executions_repo no_clash _ _ s (λ _. h)
                            λ fresh _. Holds-pure _ _ (
                              write p results found (project, at, runs)
                                ((plan_status_keyed.agree_iff p.status PlanStatus.ready).0
                                  (true_of_not _ stands))
                                unused made fresh))

  -- The plan follows, and the execution, which is there, is written: both writes happen or none.
  settle-effect :
      (x : Execution) (plan_status : PlanStatus) (now : ℕ) (s : Store)
      → contains x.id s.executions ≡ true
      → P s
      → ((q : Plan)
          → lookup x.plan_id s.plans ≡ some q
          → P (both x (with_status plan_status now q) s))
      → Holds (Stays P) (settle x plan_status now) s
  unfolding settle set_status
  settle-effect x plan_status now s there h write = bind-any _ _ s (
      bind-find _ _ _ s (λ _. h)
        λ q found.
          bind-update plans_repo no_clash _ _ s (λ _. h)
            λ _.
              Holds-pure _ _
                (bind-update_there executions_repo _ _ _ there (Holds-pure _ _ (write q found))))

  -- The moves of an execution, with what the code checks for each.
  pub record Moves (x : Execution) (now : ℕ) (s : Store) : Type 0 where
    pub starts :
        x.status ≡ ExecutionStatus.created
        → ActiveProject x.project_id s
        → (p q : Plan) → lookup x.plan_id s.plans ≡ some p
        → p.status ≡ PlanStatus.ready
        → lookup x.plan_id s.plans ≡ some q
        → P (both (started now x) (with_status PlanStatus.running now q) s)
    pub completes :
        x.status ≡ ExecutionStatus.running
        → any is_unfinished x.results ≡ false
        → (q : Plan) → lookup x.plan_id s.plans ≡ some q
        → P (
            both
              (finished ExecutionStatus.completed now x)
              (with_status PlanStatus.completed now q)
              s)
    pub cancels :
        (x.status ≡ ExecutionStatus.created) ⊎ (x.status ≡ ExecutionStatus.running)
        → (q : Plan) → lookup x.plan_id s.plans ≡ some q
        → P (
            both
              (finished ExecutionStatus.cancelled now x)
              (with_status PlanStatus.cancelled now q)
              s)

  may_cancel :
      (a : ExecutionStatus)
      → not (a == ExecutionStatus.created || a == ExecutionStatus.running) ≡ false
      → (a ≡ ExecutionStatus.created) ⊎ (a ≡ ExecutionStatus.running)
  may_cancel ExecutionStatus.created h = inl refl
  may_cancel ExecutionStatus.running h = inr refl
  may_cancel ExecutionStatus.completed h = ground arith
  may_cancel ExecutionStatus.cancelled h = ground arith

  move_execution-effect :
      (x : Execution) (target : ExecutionStatus) (now : ℕ) (s : Store)
      → contains x.id s.executions ≡ true
      → P s
      → Moves x now s
      → Holds (Stays P) (move_execution x target now) s
  unfolding move_execution start_execution complete_execution cancel_execution
  move_execution-effect x ExecutionStatus.running now s there h moves =
      bind-raise_if _ _ _ s (λ _. h)
        λ fresh.
          bind-active _ _ s (λ _. h)
            λ project at runs.
              bind-find _ _ _ s (λ _. h)
                λ p found.
                  bind-raise_if _ _ _ s (λ _. h)
                    λ stands.
                      settle-effect (started now x) PlanStatus.running now s there h λ q has.
                        moves.starts
                          ((execution_status_keyed.agree_iff x.status ExecutionStatus.created).0
                            (true_of_not _ fresh))
                          (project, at, runs) p q found
                          ((plan_status_keyed.agree_iff p.status PlanStatus.ready).0
                            (true_of_not _ stands))
                          has
  move_execution-effect x ExecutionStatus.completed now s there h moves =
      bind-raise_if _ _ _ s (λ _. h)
        λ runs.
          bind-raise_if _ _ _ s (λ _. h)
            λ judged.
              settle-effect (finished ExecutionStatus.completed now x) PlanStatus.completed now s
                there h
                (moves.completes
                  ((execution_status_keyed.agree_iff x.status ExecutionStatus.running).0
                    (true_of_not _ runs))
                  judged)
  move_execution-effect x ExecutionStatus.cancelled now s there h moves =
      bind-raise_if _ _ _ s (λ _. h)
        λ runs.
          settle-effect (finished ExecutionStatus.cancelled now x) PlanStatus.cancelled now s there
            h (moves.cancels (may_cancel x.status runs))
  move_execution-effect x ExecutionStatus.created now s there h moves = Holds-raise _ s h

  pub transition_execution-effect :
      (id : ℕ) (target : ExecutionStatus) (now : ℕ) (s : Store)
      → Owned (λ (x : Execution). x.id) s.executions
      → P s
      → ((x : Execution) → lookup id s.executions ≡ some x → Moves x now s)
      → Holds (Stays P) (transition_execution id target now) s
  unfolding transition_execution
  transition_execution-effect id target now s own h moves =
      bind-find _ _ _ s (λ _. h)
        λ x found. elim (Bool-cases (x.status == target)) [
          | inl same ↦ rw same (Holds-pure x s h)
          | inr away ↦ rw away (
              move_execution-effect x target now s (rw (own id x found) (rw found refl)) h
                (moves x found))
        ]

  pub update_case_result-effect :
      (id case_id : ℕ) (status : ResultStatus) (actual comment : String) (now later : ℕ) (s : Store)
      → P s
      → ((x : Execution)
          → lookup id s.executions ≡ some x
          → x.status ≡ ExecutionStatus.running
          → (status == ResultStatus.not_run) ≡ false
          → P (
              put executions_repo
                (with_results (map (judge case_id status actual comment now) x.results) later x)
                s))
      → Holds (Stays P) (update_case_result id case_id status actual comment now later) s
  unfolding update_case_result
  update_case_result-effect id case_id status actual comment now later s h write =
      bind-find _ _ _ s (λ _. h)
        λ x found.
          bind-raise_if _ _ _ s (λ _. h)
            λ runs.
              bind-raise_if _ _ _ s (λ _. h)
                λ judges.
                  bind-raise_if _ _ _ s (λ _. h)
                    λ _.
                      bind-update executions_repo no_clash _ _ s (λ _. h)
                        λ _. Holds-pure _ _ (
                          write x found
                            ((execution_status_keyed.agree_iff x.status ExecutionStatus.running).0
                              (true_of_not _ runs))
                            judges)

  pub delete_execution-effect :
      (id : ℕ) (s : Store)
      → P s
      → ((x : Execution)
          → lookup id s.executions ≡ some x
          → x.status ≡ ExecutionStatus.created
          → P (drop_item executions_repo x.id s))
      → Holds (Stays P) (delete_execution id) s
  unfolding delete_execution
  delete_execution-effect id s h write =
      bind-find _ _ _ s (λ _. h)
        λ x found.
          bind-raise_if _ _ _ s (λ _. h)
            λ fresh. bind-gets _ _ s (
              bind-raise_if _ _ _ s (λ _. h)
                λ _. bind-delete executions_repo _ _ s (
                  Holds-pure _ _ (
                    write x found (
                      (execution_status_keyed.agree_iff x.status ExecutionStatus.created).0
                        (true_of_not _ fresh)))))
