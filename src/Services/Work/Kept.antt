-- ===== src/Services/Work/Kept.antt =====
-- Every call of the services keeps plans and executions in step.
use qa_platform_learning.Common.Tests.{
  ℕ, ◌≡◌, refl, ap, ◌∙◌, String, some, List, [], ◌∷◌, map, arith, nat_keyed,
}
use qa_platform_learning.Common.Dict.{lookup}
use qa_platform_learning.Services.Reads.{Owned-insert, Owned-remove}
use qa_platform_learning.Services.Models.Status.{ExecutionStatus, ResultStatus}
use qa_platform_learning.Services.Models.Records.{Case, Execution, CaseResult}
use qa_platform_learning.Services.Store.{Store, executions_repo}
use qa_platform_learning.Services.Repository.{put}
use qa_platform_learning.Services.Plans.Operations.{with_status}
use qa_platform_learning.Services.Plans.Effects.{
  create_plan-effect, update_plan-effect, transition_plan-effect, delete_plan-effect,
}
use qa_platform_learning.Services.Executions.Operations.{judge, with_results}
use qa_platform_learning.Services.Executions.Effects.{
  create_execution-effect, transition_execution-effect, update_case_result-effect,
  delete_execution-effect,
}
use qa_platform_learning.Services.Cases.Operations.{new_case, edited_case}
use qa_platform_learning.Services.Cases.Effects.{
  create_case-effect, update_case-effect, transition_case-effect, delete_case-effect,
}
use qa_platform_learning.Services.Suites.Effects.{
  create_suite-effect, update_suite-effect, transition_suite-effect, delete_suite-effect,
}
use qa_platform_learning.Services.Projects.Effects.{
  create_project-effect, update_project-effect, transition_project-effect, delete_project-effect,
}
use qa_platform_learning.Services.Defects.Effects.{
  create_defect-effect, update_defect-effect, transition_defect-effect,
}
use qa_platform_learning.Services.Work.Lockstep.{
  case_ids_of, with_cases, write_plan, drop_plan, write_execution, write_results, drop_execution,
}
use qa_platform_learning.Services.Work.InStep.{
  InStep, draft-Unnamed, unexecuted-Unnamed, absent-Unnamed, made-Ids, executed-Unnamed,
  Moves-InStep,
}
use qa_platform_learning.Services.Work.Requests.{
  Request, after, after_all, new_project_call, edit_project_call, move_project_call,
  drop_project_call, new_suite_call, edit_suite_call, move_suite_call, drop_suite_call,
  new_case_call, edit_case_call, move_case_call, drop_case_call, new_plan_call, edit_plan_call,
  move_plan_call, drop_plan_call, new_execution_call, move_execution_call, judge_call,
  drop_execution_call, new_defect_call, edit_defect_call, move_defect_call,
}

judge-case_ids :
    (case_id : ℕ) (status : ResultStatus) (actual comment : String) (now : ℕ) (rs : List CaseResult)
    → case_ids_of (map (judge case_id status actual comment now) rs) ≡ case_ids_of rs
judge-case_ids case_id status actual comment now [] = refl
judge-case_ids case_id status actual comment now (r ∷ rs) =
    ground (arith, judge-case_ids case_id status actual comment now rs)

judged-InStep :
    (s : Store) (l : InStep s) (id : ℕ) (x : Execution) (case_id : ℕ) (status : ResultStatus)
    (actual comment : String) (now later : ℕ)
    → lookup id s.executions ≡ some x
    → x.status ≡ ExecutionStatus.running
    → InStep (
        put executions_repo
          (with_results (map (judge case_id status actual comment now) x.results) later x)
          s)
judged-InStep s l id x case_id status actual comment now later found runs =
    let (p, at, (stands, same_project, same_cases)) = l.partner id x found in
    write_results l x
      (with_results (map (judge case_id status actual comment now) x.results) later x) p
      (ap (λ (i : ℕ). lookup i s.executions) (l.own_executions id x found) ∙ found) refl at
      (
        stands,
        same_project,
        judge-case_ids case_id status actual comment now x.results ∙ same_cases,
      )
      (λ e. absurd (ground (arith, runs, e)))

module _ (upper lower casefold strip : String → String) where
  -- A call keeps the store in step, whether it returns or raises.
  pub after-InStep :
      (r : Request) (s : Store) → InStep s → InStep (after upper lower casefold strip r s)
  unfolding after
  after-InStep (new_project_call key name description now i) s l =
      (create_project-effect InStep upper key name description now i s l (λ _. l)).at
  after-InStep (edit_project_call id e now) s l =
      (update_project-effect InStep id e now s l λ _ _. l).at
  after-InStep (move_project_call id target now) s l =
      (transition_project-effect InStep id target now s l λ _ _ _. l).at
  after-InStep (drop_project_call id) s l = (delete_project-effect InStep id s l λ _ _ _ _. l).at
  after-InStep (new_suite_call p now i) s l =
      (create_suite-effect InStep casefold p now i s l λ _ _ _ _. l).at
  after-InStep (edit_suite_call id e now) s l =
      (update_suite-effect InStep casefold id e now s l λ _ _ _ _ _. l).at
  after-InStep (move_suite_call id target now) s l =
      (transition_suite-effect InStep id target now s l λ _ _ _. l).at
  after-InStep (drop_suite_call id) s l = (delete_suite-effect InStep id s l λ _ _ _ _ _. l).at
  after-InStep (new_case_call p now i) s l =
      (create_case-effect InStep strip lower p now i s l λ _.
        with_cases l _
          (Owned-insert (λ (c : Case). c.id) (new_case strip lower p now i) s.cases l.own_cases)).at
  after-InStep (edit_case_call id e now) s l =
      (update_case-effect InStep strip lower id e now s l λ c _ _. with_cases l _ (
        Owned-insert (λ (c : Case). c.id) (edited_case strip lower e now c) s.cases l.own_cases)).at
  after-InStep (move_case_call id target now) s l =
      (transition_case-effect InStep id target now s l
        λ c _ _ _. with_cases l _ (Owned-insert (λ (c : Case). c.id) _ s.cases l.own_cases)).at
  after-InStep (drop_case_call id) s l =
      (delete_case-effect InStep id s l
        λ c _ _. with_cases l _ (Owned-remove (λ (c : Case). c.id) c.id s.cases l.own_cases)).at
  after-InStep (new_plan_call p now i) s l =
      (create_plan-effect InStep p now i s l
        λ _ fresh. write_plan l _ (absent-Unnamed s l i fresh) refl).at
  after-InStep (edit_plan_call id e now) s l =
      (update_plan-effect InStep id e now s l λ p found drafts.
        write_plan l _
          (draft-Unnamed s l p.id p
            (ap (λ (i : ℕ). lookup i s.plans) (l.own_plans id p found) ∙ found) drafts)
          (ground (arith, drafts))).at
  after-InStep (move_plan_call id target now) s l =
      (transition_plan-effect InStep id target now s l λ p q found may there.
        let (unnamed, idle) = executed-Unnamed s l id p q target found may there in
        write_plan l (with_status target now q) unnamed idle).at
  after-InStep (drop_plan_call id) s l =
      (delete_plan-effect InStep id s l
        λ p _ unused. drop_plan l p.id (unexecuted-Unnamed s l p.id unused)).at
  after-InStep (new_execution_call plan_id now i) s l =
      (create_execution-effect InStep plan_id now i s l
        λ p results found _ stands unused made fresh.
          write_execution l _ p fresh
            (ap (λ (i : ℕ). lookup i s.plans) (l.own_plans plan_id p found) ∙ found)
            (stands, refl, made-Ids s l p.case_ids results made) (λ e. absurd (ground (arith, e)))
            (unexecuted-Unnamed s l p.id unused)).at
  after-InStep (move_execution_call id target now) s l =
      (transition_execution-effect InStep id target now s l.own_executions l
        λ x found. Moves-InStep s l id x now found).at
  after-InStep (judge_call id case_id status actual comment now later) s l =
      (update_case_result-effect InStep id case_id status actual comment now later s l
        (λ x found runs _.
          judged-InStep s l id x case_id status actual comment now later found runs)).at
  after-InStep (drop_execution_call id) s l =
      (delete_execution-effect InStep id s l λ x found fresh.
        drop_execution l x
          (ap (λ (i : ℕ). lookup i s.executions) (l.own_executions id x found) ∙ found) fresh).at
  after-InStep (new_defect_call p actor now i) s l =
      (create_defect-effect InStep p actor now i s l λ _ _. l).at
  after-InStep (edit_defect_call id e now) s l =
      (update_defect-effect InStep strip id e now s l λ _ _ _. l).at
  after-InStep (move_defect_call id p now) s l =
      (transition_defect-effect InStep strip id p now s l λ _ _ _ _. l).at

  -- After any run of calls of the services, of any clients and whether the calls return or raise, plans and
  -- executions are in step if they were at its start: every record stands under its id; every execution has its
  -- plan, in the status that fits its own, in the same project and with the plan's cases in the plan's order; no
  -- two executions share a plan; every plan beyond ready has an execution; and every completed execution has a
  -- verdict on every case.
  pub after_all-InStep :
      (rs : List Request) (s : Store)
      → InStep s
      → InStep (after_all upper lower casefold strip rs s)
  after_all-InStep [] s l = l
  after_all-InStep (r ∷ rs) s l =
      after_all-InStep rs (after upper lower casefold strip r s) (after-InStep r s l)
