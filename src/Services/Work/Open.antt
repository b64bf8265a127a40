-- ===== src/Services/Work/Open.antt =====
-- The writes of plans, executions and projects that keep open work in active projects.
use qa_platform_learning.Common.Tests.{
  ℕ, ◌≡◌, refl, sym, ap, ◌∙◌, inl, inr, true, false, String, some, arith, nat_keyed, nat_beq,
  nat_beq_iff,
}
use qa_platform_learning.Common.Lists.{any}
use qa_platform_learning.Common.Dict.{lookup, values}
use qa_platform_learning.Common.Lookup.{same_value, remove}
use qa_platform_learning.Services.Reads.{any-lookup}
use qa_platform_learning.Services.Repository.{put}
use qa_platform_learning.Services.Models.Status.{ProjectStatus, PlanStatus}
use qa_platform_learning.Services.Models.Records.{Project, Plan, Execution}
use qa_platform_learning.Services.Store.{Store, projects_repo, plans_repo}
use qa_platform_learning.Services.Defects.Model.{Defect, Transition}
use qa_platform_learning.Services.Defects.Operations.{moved}
use qa_platform_learning.Services.Plans.Operations.{with_status}
use qa_platform_learning.Services.Projects.Operations.{
  plan_is_open, open_plan, open_defect, with_project_status,
}
use qa_platform_learning.Services.Plans.Effects.{UserMove}
use qa_platform_learning.Services.Executions.Effects.{Moves}
use qa_platform_learning.Services.Projects.Effects.{Idle}
use qa_platform_learning.Services.Work.Support.{
  Active, Supported, put_plan, put_project, take_project,
}
use qa_platform_learning.Services.Work.InStep.{InStep}

-- `Supported` of a store's repositories.
abbrev pub IsSupported : Store → Type 0
IsSupported s = Supported s.projects s.plans s.defects

module _ (s : Store) (u : IsSupported s) where
  -- A plan that was open may be written anew with another status.
  pub reopened_plan :
      (k : ℕ) (q : Plan) (target : PlanStatus) (now : ℕ)
      → lookup k s.plans ≡ some q
      → (plan_is_open target ≡ true → plan_is_open q.status ≡ true)
      → IsSupported (put plans_repo (with_status target now q) s)
  reopened_plan k q target now found busy =
      put_plan u (with_status target now q) λ goal. u.planned k q found (busy goal)

  pub user_moves :
      (l : InStep s) (id : ℕ) (p q : Plan) (target : PlanStatus)
      → lookup id s.plans ≡ some p
      → UserMove p target s
      → lookup p.id s.plans ≡ some q
      → plan_is_open q.status ≡ true
  user_moves l id p q target found may there =
      let same = same_value id p.id p q s.plans (sym (l.own_plans id p found)) found there in
      ap (λ (a : Plan). plan_is_open a.status) (sym same) ∙ before may
    where
      before : UserMove p target s → plan_is_open p.status ≡ true
      before (inl (drafts, _, _)) = ap plan_is_open drafts
      before (inr (stands, _, _)) = ap plan_is_open stands

  pub execution-Moves : (x : Execution) (now : ℕ) → Moves IsSupported x now s
  execution-Moves x now = record {
    starts = λ _ _ p q at stands has. reopened_plan x.plan_id q PlanStatus.running now has λ _.
        ap (λ (a : Plan). plan_is_open a.status)
          (sym (same_value x.plan_id x.plan_id p q s.plans refl at has))
        ∙ ap plan_is_open stands;
    completes = λ _ _ q has.
        reopened_plan x.plan_id q PlanStatus.completed now has λ e. absurd (ground (arith, e));
    cancels = λ _ q has.
        reopened_plan x.plan_id q PlanStatus.cancelled now has λ e. absurd (ground (arith, e));
  }

  -- What is open in a project finds it active.
  found_active :
      (id i : ℕ) (p : Project)
      → lookup id s.projects ≡ some p
      → Active i s.projects
      → p.id ≡ i
      → p.status ≡ ProjectStatus.active
  found_active id i p found (q, at, runs) same =
      let e = same_value id i p q s.projects (sym (u.own_projects id p found) ∙ same) found at in
      ap (λ (a : Project). a.status) e ∙ runs

  pub edits_project :
      (id : ℕ) (p p' : Project)
      → lookup id s.projects ≡ some p
      → p'.id ≡ p.id
      → p'.status ≡ p.status
      → IsSupported (put projects_repo p' s)
  edits_project id p p' found same_id same_status =
      put_project u p'
        (λ k q at busy e.
          same_status
          ∙ found_active id q.project_id p found (u.planned k q at busy) (sym same_id ∙ e))
        (λ k d at busy e.
          same_status
          ∙ found_active id d.project_id p found (u.broken k d at busy) (sym same_id ∙ e))

  pub moves_project :
      (p : Project) (target : ProjectStatus) (now : ℕ)
      → Idle p target s
      → IsSupported (put projects_repo (with_project_status target now p) s)
  moves_project p ProjectStatus.active now idle =
      put_project u (with_project_status ProjectStatus.active now p) (λ _ _ _ _ _. refl)
        (λ _ _ _ _ _. refl)
  moves_project p ProjectStatus.archived now (no_plan, no_defect) =
      put_project u (with_project_status ProjectStatus.archived now p)
        (λ k q at busy e.
          let quiet = any-lookup (open_plan p.id) k q s.plans no_plan at in
          absurd (ground (arith, quiet, busy, (nat_beq_iff q.project_id p.id).1 (sym e))))
        (λ k d at busy e.
          let quiet = any-lookup (open_defect p.id) k d s.defects no_defect at in
          absurd (ground (arith, quiet, busy, (nat_beq_iff d.project_id p.id).1 (sym e))))

  pub drops_project :
      (id : ℕ)
      → any (λ (x : Plan). nat_beq x.project_id id) (values s.plans) ≡ false
      → any (λ (d : Defect). nat_beq d.project_id id) (values s.defects) ≡ false
      → IsSupported (record s { projects = remove id s.projects })
  drops_project id no_plan no_defect =
      take_project u id
        (λ k q at e. absurd (
          cc (
            sym (any-lookup (λ (x : Plan). nat_beq x.project_id id) k q s.plans no_plan at)
            ∙ (nat_beq_iff q.project_id id).1 e)))
        (λ k d at e. absurd (
          cc (
            sym (any-lookup (λ (x : Defect). nat_beq x.project_id id) k d s.defects no_defect at)
            ∙ (nat_beq_iff d.project_id id).1 e)))

pub moved-project_id :
    (strip : String → String) (now : ℕ) (p : Transition) (d : Defect)
    → (moved strip now p d).project_id ≡ d.project_id
unfolding moved
moved-project_id strip now p d = ground arith
