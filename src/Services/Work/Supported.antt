-- ===== src/Services/Work/Supported.antt =====
-- Every call of the services keeps open work in active projects.
use qa_platform_learning.Common.Tests.{
  ℕ, ◌≡◌, refl, sym, ap, ◌∙◌, true, String, some, List, [], ◌∷◌, arith, nat_keyed,
}
use qa_platform_learning.Common.Dict.{lookup}
use qa_platform_learning.Services.Models.Status.{ExecutionStatus}
use qa_platform_learning.Services.Models.Records.{Plan, Execution}
use qa_platform_learning.Services.Store.{Store}
use qa_platform_learning.Services.Defects.Model.{Defect, Edit}
use qa_platform_learning.Services.Defects.Operations.{moved}
use qa_platform_learning.Services.Defects.Edits.{edited}
use qa_platform_learning.Services.Projects.Operations.{
  plan_is_open, execution_is_open, edited_project,
}
use qa_platform_learning.Services.Plans.Effects.{
  create_plan-effect, update_plan-effect, transition_plan-effect, delete_plan-effect,
}
use qa_platform_learning.Services.Executions.Effects.{
  create_execution-effect, transition_execution-effect, update_case_result-effect,
  delete_execution-effect,
}
use qa_platform_learning.Services.Cases.Effects.{
  create_case-effect, update_case-effect, transition_case-effect, delete_case-effect,
}
use qa_platform_learning.Services.Suites.Effects.{
  create_suite-effect, update_suite-effect, transition_suite-effect, delete_suite-effect,
}
use qa_platform_learning.Services.Projects.Effects.{
  create_project-effect, update_project-effect, transition_project-effect, delete_project-effect,
}
use qa_platform_learning.Services.Defects.Effects.{
  create_defect-effect, update_defect-effect, transition_defect-effect,
}
use qa_platform_learning.Services.Work.Lockstep.{plan_status}
use qa_platform_learning.Services.Work.Support.{
  Active, is_broken, put_plan, take_plan, put_defect, put_project,
}
use qa_platform_learning.Services.Work.InStep.{InStep}
use qa_platform_learning.Services.Work.Kept.{after-InStep}
use qa_platform_learning.Services.Work.Open.{
  IsSupported, reopened_plan, user_moves, execution-Moves, edits_project, moves_project,
  drops_project, moved-project_id,
}
use qa_platform_learning.Services.Work.Requests.{
  Request, after, after_all, new_project_call, edit_project_call, move_project_call,
  drop_project_call, new_suite_call, edit_suite_call, move_suite_call, drop_suite_call,
  new_case_call, edit_case_call, move_case_call, drop_case_call, new_plan_call, edit_plan_call,
  move_plan_call, drop_plan_call, new_execution_call, move_execution_call, judge_call,
  drop_execution_call, new_defect_call, edit_defect_call, move_defect_call,
}
use mathlib.Core.Path.{subst}

-- Every plan and every execution that is not over and every defect that is not closed belongs to a project
-- that is stored and active.
abbrev pub OpenWorkSupported : Store → Type 0
OpenWorkSupported s =
    ((k : ℕ) (p : Plan)
      → lookup k s.plans ≡ some p
      → plan_is_open p.status ≡ true
      → Active p.project_id s.projects)
    × ((k : ℕ) (x : Execution)
        → lookup k s.executions ≡ some x
        → execution_is_open x.status ≡ true
        → Active x.project_id s.projects)
    × ((k : ℕ) (d : Defect)
        → lookup k s.defects ≡ some d
        → is_broken d ≡ true
        → Active d.project_id s.projects)

opens : (t : ExecutionStatus) → execution_is_open t ≡ true → plan_is_open (plan_status t) ≡ true
opens t h = ground arith

edited_supported :
    (id : ℕ) (e : Edit) (now : ℕ) (s : Store) (u : IsSupported s) (d : Defect)
    → lookup id s.defects ≡ some d
    → is_broken (edited now e d) ≡ true
    → Active (edited now e d).project_id s.projects
unfolding edited
edited_supported id e now s u d found busy = u.broken id d found busy

module _ (upper lower casefold strip : String → String) where
  after-IsSupported :
      (r : Request) (s : Store)
      → InStep s
      → IsSupported s
      → IsSupported (after upper lower casefold strip r s)
  unfolding after
  after-IsSupported (new_project_call key name description now i) s l u =
      (create_project-effect IsSupported upper key name description now i s u
        λ _. put_project u _ (λ _ _ _ _ _. refl) (λ _ _ _ _ _. refl)).at
  after-IsSupported (edit_project_call id e now) s l u =
      (update_project-effect IsSupported id e now s u
        λ p found. edits_project s u id p (edited_project e now p) found refl refl).at
  after-IsSupported (move_project_call id target now) s l u =
      (transition_project-effect IsSupported id target now s u
        λ p _ idle. moves_project s u p target now idle).at
  after-IsSupported (drop_project_call id) s l u =
      (delete_project-effect IsSupported id s u
        λ p _ no_plan no_defect. drops_project s u p.id no_plan no_defect).at
  after-IsSupported (new_suite_call p now i) s l u =
      (create_suite-effect IsSupported casefold p now i s u λ _ _ _ _. u).at
  after-IsSupported (edit_suite_call id e now) s l u =
      (update_suite-effect IsSupported casefold id e now s u λ _ _ _ _ _. u).at
  after-IsSupported (move_suite_call id target now) s l u =
      (transition_suite-effect IsSupported id target now s u λ _ _ _. u).at
  after-IsSupported (drop_suite_call id) s l u =
      (delete_suite-effect IsSupported id s u λ _ _ _ _ _. u).at
  after-IsSupported (new_case_call p now i) s l u =
      (create_case-effect IsSupported strip lower p now i s u λ _. u).at
  after-IsSupported (edit_case_call id e now) s l u =
      (update_case-effect IsSupported strip lower id e now s u λ _ _ _. u).at
  after-IsSupported (move_case_call id target now) s l u =
      (transition_case-effect IsSupported id target now s u λ _ _ _ _. u).at
  after-IsSupported (drop_case_call id) s l u =
      (delete_case-effect IsSupported id s u λ _ _ _. u).at
  after-IsSupported (new_plan_call p now i) s l u =
      (create_plan-effect IsSupported p now i s u λ runs _. put_plan u _ λ _. runs).at
  after-IsSupported (edit_plan_call id e now) s l u =
      (update_plan-effect IsSupported id e now s u
        λ p found _. put_plan u _ (u.planned id p found)).at
  after-IsSupported (move_plan_call id target now) s l u =
      (transition_plan-effect IsSupported id target now s u λ p q found may there.
        reopened_plan s u p.id q target now there
          λ _. user_moves s u l id p q target found may there).at
  after-IsSupported (drop_plan_call id) s l u =
      (delete_plan-effect IsSupported id s u λ p _ _. take_plan u p.id).at
  after-IsSupported (new_execution_call plan_id now i) s l u =
      (create_execution-effect IsSupported plan_id now i s u λ _ _ _ _ _ _ _ _. u).at
  after-IsSupported (move_execution_call id target now) s l u =
      (transition_execution-effect IsSupported id target now s l.own_executions u
        λ x _. execution-Moves s u x now).at
  after-IsSupported (judge_call id case_id status actual comment now later) s l u =
      (update_case_result-effect IsSupported id case_id status actual comment now later s u
        λ _ _ _ _. u).at
  after-IsSupported (drop_execution_call id) s l u =
      (delete_execution-effect IsSupported id s u λ _ _ _. u).at
  after-IsSupported (new_defect_call p actor now i) s l u =
      (create_defect-effect IsSupported p actor now i s u λ runs _. put_defect u _ λ _. runs).at
  after-IsSupported (edit_defect_call id e now) s l u =
      (update_defect-effect IsSupported strip id e now s u
        λ d found _. put_defect u (edited now e d) (edited_supported id e now s u d found)).at
  after-IsSupported (move_defect_call id p now) s l u =
      (transition_defect-effect IsSupported strip id p now s u λ d _ runs _.
        put_defect u (moved strip now p d) λ _.
          subst (λ (i : ℕ). Active i s.projects) (sym (moved-project_id strip now p d)) runs).at

  -- After any run of calls of the services, if at its start plans and executions were in step and open work
  -- stood in active projects, every plan that is not over, every execution that is not over and every defect
  -- that is not closed belongs to a project that is stored and active: no archived and no deleted project has
  -- unfinished work.
  pub after_all-supported :
      (rs : List Request) (s : Store)
      → InStep s
      → IsSupported s
      → OpenWorkSupported (after_all upper lower casefold strip rs s)
  after_all-supported [] s l u = (
    u.planned,
    (λ k x found busy.
        let (p, at, m) = l.partner k x found in
        subst (λ (i : ℕ). Active i s.projects) (sym m.1)
          (u.planned x.plan_id p at (ap plan_is_open m.0 ∙ opens x.status busy))),
    u.broken,
  )
  after_all-supported (r ∷ rs) s l u =
      after_all-supported rs (after upper lower casefold strip r s)
        (after-InStep upper lower casefold strip r s l) (after-IsSupported r s l u)
