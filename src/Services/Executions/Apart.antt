-- ===== src/Services/Executions/Apart.antt =====
-- A transition of an execution and what plans and executions do not matter to.
use qa_platform_learning.Common.Tests.{ℕ, inl, inr, nat_keyed, Bool-cases, ◌==◌}
use qa_platform_learning.Common.Dict.{Dict}
use qa_platform_learning.Common.Holds.{
  Holds, Holds-pure, Holds-raise, Stays, bind-any, bind-find, bind-raise_if,
}
use qa_platform_learning.Services.Repository.{no_clash, bind-update}
use qa_platform_learning.Services.Models.Status.{
  PlanStatus, ExecutionStatus, plan_status_keyed, execution_status_keyed, result_status_keyed,
}
use qa_platform_learning.Services.Models.Records.{Plan, Execution}
use qa_platform_learning.Services.Store.{Store, plans_repo, executions_repo, bind-active}
use qa_platform_learning.Services.Plans.Operations.{set_status}
use qa_platform_learning.Services.Executions.Operations.{
  started, finished, settle, start_execution, complete_execution, cancel_execution, move_execution,
  transition_execution,
}

module _ (P : Store → Type 0) where
  -- What plans and executions do not matter to.
  abbrev Apart : Store → Type 0
  Apart s =
      (plans : Dict ℕ Plan) (executions : Dict ℕ Execution)
      → P (record s { plans = plans; executions = executions })

  settle-Apart :
      (x : Execution) (plan_status : PlanStatus) (now : ℕ) (s : Store)
      → Apart s
      → Holds (Stays P) (settle x plan_status now) s
  unfolding settle set_status
  settle-Apart x plan_status now s h = bind-any _ _ s (
      bind-find _ _ _ s (λ _. h _ _)
        λ q _.
          bind-update plans_repo no_clash _ _ s (λ _. h _ _)
            λ _.
              Holds-pure _ _ (
                bind-update executions_repo no_clash _ _ _ (λ _. h _ _)
                  λ _. Holds-pure _ _ (h _ _)))

  move_execution-Apart :
      (x : Execution) (target : ExecutionStatus) (now : ℕ) (s : Store)
      → Apart s
      → Holds (Stays P) (move_execution x target now) s
  unfolding move_execution start_execution complete_execution cancel_execution
  move_execution-Apart x ExecutionStatus.running now s h =
      bind-raise_if _ _ _ s (λ _. h _ _)
        λ _.
          bind-active _ _ s (λ _. h _ _)
            λ _ _ _.
              bind-find _ _ _ s (λ _. h _ _)
                λ _ _.
                  bind-raise_if _ _ _ s (λ _. h _ _)
                    λ _. settle-Apart (started now x) PlanStatus.running now s h
  move_execution-Apart x ExecutionStatus.completed now s h =
      bind-raise_if _ _ _ s (λ _. h _ _)
        λ _.
          bind-raise_if _ _ _ s (λ _. h _ _)
            λ _.
              settle-Apart (finished ExecutionStatus.completed now x) PlanStatus.completed now s h
  move_execution-Apart x ExecutionStatus.cancelled now s h =
      bind-raise_if _ _ _ s (λ _. h _ _)
        λ _. settle-Apart (finished ExecutionStatus.cancelled now x) PlanStatus.cancelled now s h
  move_execution-Apart x ExecutionStatus.created now s h = Holds-raise _ s (h _ _)

  pub transition_execution-Apart :
      (id : ℕ) (target : ExecutionStatus) (now : ℕ) (s : Store)
      → Apart s
      → Holds (Stays P) (transition_execution id target now) s
  unfolding transition_execution
  transition_execution-Apart id target now s h =
      bind-find _ _ _ s (λ _. h _ _)
        λ x _. elim (Bool-cases (x.status == target)) [
          | inl same ↦ rw same (Holds-pure x s (h _ _))
          | inr away ↦ rw away (move_execution-Apart x target now s h)
        ]
