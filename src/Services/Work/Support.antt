-- ===== src/Services/Work/Support.antt =====
-- Open work stands in active projects (backend/app/services): the invariant, and the writes that keep it.
use qa_platform_learning.Common.Tests.{
  ℕ, ◌≡◌, ◌≢◌, sym, ap, ◌∙◌, inl, inr, Bool, true, not, some, nat_keyed, nat_beq, nat_beq_iff,
  Bool-cases,
}
use qa_platform_learning.Common.Dict.{Dict, lookup, insert, lookup-insert_self}
use qa_platform_learning.Common.Lookup.{found_after, remove, found_left, left_after, found_insert}
use qa_platform_learning.Services.Reads.{Owned, Owned-insert, Owned-remove}
use qa_platform_learning.Services.Models.Status.{ProjectStatus}
use qa_platform_learning.Services.Models.Records.{Project, Plan}
use qa_platform_learning.Services.Defects.Model.{Defect, closed, same_status}
use qa_platform_learning.Services.Projects.Operations.{plan_is_open}
use mathlib.Core.Path.{subst}

abbrev pub Active : ℕ → Dict ℕ Project → Type 0
Active id projects =
    (p : Project) × (lookup id projects ≡ some p) × (p.status ≡ ProjectStatus.active)

abbrev pub is_broken : Defect → Bool
is_broken d = not (same_status d.status closed)

-- Projects stand under their ids, and a plan that is not over or a defect that is not closed belongs to a
-- project that is there and active.
pub record Supported (projects : Dict ℕ Project) (plans : Dict ℕ Plan) (defects : Dict ℕ Defect)
    : Type 0 where
  pub own_projects : Owned (λ (p : Project). p.id) projects
  pub planned :
      (k : ℕ) (p : Plan)
      → lookup k plans ≡ some p
      → plan_is_open p.status ≡ true
      → Active p.project_id projects
  pub broken :
      (k : ℕ) (d : Defect)
      → lookup k defects ≡ some d
      → is_broken d ≡ true
      → Active d.project_id projects

module _ {projects : Dict ℕ Project} {plans : Dict ℕ Plan} {defects : Dict ℕ Defect}
    (u : Supported projects plans defects) where
  pub put_plan :
      (p : Plan)
      → (plan_is_open p.status ≡ true → Active p.project_id projects)
      → Supported projects (insert p.id p plans) defects
  put_plan p h = record {
    own_projects = u.own_projects;
    planned = λ k q found. elim (found_after p.id k p q plans found) [
      | inl (_, same) ↦
          subst (λ (q : Plan). plan_is_open q.status ≡ true → Active q.project_id projects) same h
      | inr (_, before) ↦ u.planned k q before
    ];
    broken = u.broken;
  }

  pub take_plan : (id : ℕ) → Supported projects (remove id plans) defects
  take_plan id = record {
    own_projects = u.own_projects;
    planned = λ k q found. u.planned k q (found_left id k q plans found).1;
    broken = u.broken;
  }

  pub put_defect :
      (d : Defect)
      → (is_broken d ≡ true → Active d.project_id projects)
      → Supported projects plans (insert d.id d defects)
  put_defect d h = record {
    own_projects = u.own_projects;
    planned = u.planned;
    broken = λ k e found. elim (found_after d.id k d e defects found) [
      | inl (_, same) ↦
          subst (λ (e : Defect). is_broken e ≡ true → Active e.project_id projects) same h
      | inr (_, before) ↦ u.broken k e before
    ];
  }

  -- A write of a project, if what is open does not need it or it is active.
  pub put_project :
      (p : Project)
      → ((k : ℕ) (q : Plan)
          → lookup k plans ≡ some q
          → plan_is_open q.status ≡ true
          → p.id ≡ q.project_id
          → p.status ≡ ProjectStatus.active)
      → ((k : ℕ) (d : Defect)
          → lookup k defects ≡ some d
          → is_broken d ≡ true
          → p.id ≡ d.project_id
          → p.status ≡ ProjectStatus.active)
      → Supported (insert p.id p projects) plans defects
  put_project p of_plans of_defects = record {
    own_projects = Owned-insert (λ (p : Project). p.id) p projects u.own_projects;
    planned =
        λ k q found busy. kept q.project_id (u.planned k q found busy) (of_plans k q found busy);
    broken =
        λ k d found busy. kept d.project_id (u.broken k d found busy) (of_defects k d found busy);
  }
    where
      kept :
          (i : ℕ)
          → Active i projects
          → (p.id ≡ i → p.status ≡ ProjectStatus.active)
          → Active i (insert p.id p projects)
      kept i (q, at, runs) own = elim (Bool-cases (nat_beq p.id i)) [
        | inl same ↦
            let e = (nat_beq_iff p.id i).0 same in
            (
              p,
              ap (λ (j : ℕ). lookup j (insert p.id p projects)) (sym e)
                  ∙ lookup-insert_self p.id p projects,
              own e,
            )
        | inr other ↦ (
          q,
          found_insert p.id i p q projects (λ e. absurd (cc (sym other ∙ (nat_beq_iff p.id i).1 e)))
              at,
          runs,
        )
      ]

  pub take_project :
      (id : ℕ)
      → ((k : ℕ) (q : Plan) → lookup k plans ≡ some q → q.project_id ≢ id)
      → ((k : ℕ) (d : Defect) → lookup k defects ≡ some d → d.project_id ≢ id)
      → Supported (remove id projects) plans defects
  take_project id no_plan no_defect = record {
    own_projects = Owned-remove (λ (p : Project). p.id) id projects u.own_projects;
    planned = λ k q found busy.
        let (p, at, runs) = u.planned k q found busy in
        (p, left_after id q.project_id p projects (λ e. no_plan k q found (sym e)) at, runs);
    broken = λ k d found busy.
        let (p, at, runs) = u.broken k d found busy in
        (p, left_after id d.project_id p projects (λ e. no_defect k d found (sym e)) at, runs);
  }
