-- ===== src/Services/Work/Lockstep.antt =====
-- Plans and executions in step (backend/app/services/test_plans.py and executions.py): the invariant,
-- and the writes that keep it.
use qa_platform_learning.Common.Tests.{
  ℕ, ◌≡◌, ◌≢◌, sym, ap, ◌∙◌, inl, inr, Bool, true, false, some, List, map, arith, nat_keyed,
}
use qa_platform_learning.Common.Lists.{any}
use qa_platform_learning.Common.Dict.{Dict, lookup, insert, contains, lookup-insert_self}
use qa_platform_learning.Common.Lookup.{
  found_after, same_value, remove, found_left, left_after, found_insert, insert-same,
}
use qa_platform_learning.Services.Reads.{Owned, Owned-insert, Owned-remove}
use qa_platform_learning.Services.Models.Status.{PlanStatus, ExecutionStatus}
use qa_platform_learning.Services.Models.Records.{Case, Plan, Execution, CaseResult}
use qa_platform_learning.Services.Executions.Operations.{is_unfinished}
use mathlib.Core.Path.{subst}

-- The status of a plan whose execution has the given status.
abbrev pub plan_status : ExecutionStatus → PlanStatus
plan_status ExecutionStatus.created = PlanStatus.ready
plan_status ExecutionStatus.running = PlanStatus.running
plan_status ExecutionStatus.completed = PlanStatus.completed
plan_status ExecutionStatus.cancelled = PlanStatus.cancelled

abbrev pub is_begun : PlanStatus → Bool
is_begun PlanStatus.draft = false
is_begun PlanStatus.ready = false
is_begun _ = true

abbrev pub case_ids_of : List CaseResult → List ℕ
case_ids_of results = map (λ (r : CaseResult). r.case_id) results

abbrev pub Matches : Plan → Execution → Type 0
Matches p x =
    (p.status ≡ plan_status x.status)
    × (x.project_id ≡ p.project_id)
    × (case_ids_of x.results ≡ p.case_ids)

abbrev pub Judged : Execution → Type 0
Judged x = x.status ≡ ExecutionStatus.completed → any is_unfinished x.results ≡ false

-- Records stand under their ids; an execution has its plan, in the status that fits its own, in the same
-- project and with the same cases; no two executions share a plan; a plan beyond ready has an execution; and
-- a completed execution has a verdict for every case.
pub record Lockstep (cases : Dict ℕ Case) (plans : Dict ℕ Plan) (executions : Dict ℕ Execution)
    : Type 0 where
  pub own_cases : Owned (λ (c : Case). c.id) cases
  pub own_plans : Owned (λ (p : Plan). p.id) plans
  pub own_executions : Owned (λ (x : Execution). x.id) executions
  pub partner :
      (k : ℕ) (x : Execution)
      → lookup k executions ≡ some x
      → (p : Plan) × (lookup x.plan_id plans ≡ some p) × Matches p x
  pub single :
      (j k : ℕ) (x y : Execution)
      → lookup j executions ≡ some x
      → lookup k executions ≡ some y
      → x.plan_id ≡ y.plan_id
      → j ≡ k
  pub executed :
      (k : ℕ) (p : Plan)
      → lookup k plans ≡ some p
      → is_begun p.status ≡ true
      → (j : ℕ) × (x : Execution) × (lookup j executions ≡ some x) × (x.plan_id ≡ k)
  pub judged : (k : ℕ) (x : Execution) → lookup k executions ≡ some x → Judged x

-- No execution has the plan `id`.
abbrev pub Unnamed : ℕ → Dict ℕ Execution → Type 0
Unnamed id executions = (k : ℕ) (x : Execution) → lookup k executions ≡ some x → x.plan_id ≢ id

module _ {cases : Dict ℕ Case} {plans : Dict ℕ Plan} {executions : Dict ℕ Execution}
    (l : Lockstep cases plans executions) where
  pub with_cases :
      (others : Dict ℕ Case) → Owned (λ (c : Case). c.id) others → Lockstep others plans executions
  with_cases others own = record {
    own_cases = own;
    own_plans = l.own_plans;
    own_executions = l.own_executions;
    partner = l.partner;
    single = l.single;
    executed = l.executed;
    judged = l.judged;
  }

  pub write_plan :
      (p : Plan)
      → Unnamed p.id executions
      → is_begun p.status ≡ false
      → Lockstep cases (insert p.id p plans) executions
  write_plan p unnamed idle = record {
    own_cases = l.own_cases;
    own_plans = Owned-insert (λ (p : Plan). p.id) p plans l.own_plans;
    own_executions = l.own_executions;
    partner = λ k x found.
        let (q, at, m) = l.partner k x found in
        (q, found_insert p.id x.plan_id p q plans (λ e. unnamed k x found (sym e)) at, m);
    single = l.single;
    executed = λ k q found begun. elim (found_after p.id k p q plans found) [
      | inl (_, same) ↦ absurd (cc (sym idle ∙ ap (λ (a : Plan). is_begun a.status) same ∙ begun))
      | inr (_, before) ↦ l.executed k q before begun
    ];
    judged = l.judged;
  }

  pub drop_plan : (id : ℕ) → Unnamed id executions → Lockstep cases (remove id plans) executions
  drop_plan id unnamed = record {
    own_cases = l.own_cases;
    own_plans = Owned-remove (λ (p : Plan). p.id) id plans l.own_plans;
    own_executions = l.own_executions;
    partner = λ k x found.
        let (q, at, m) = l.partner k x found in
        (q, left_after id x.plan_id q plans (λ e. unnamed k x found (sym e)) at, m);
    single = l.single;
    executed = λ k q found begun. l.executed k q (found_left id k q plans found).1 begun;
    judged = l.judged;
  }

  pub write_execution :
      (x : Execution) (p : Plan)
      → contains x.id executions ≡ false
      → lookup x.plan_id plans ≡ some p
      → Matches p x
      → Judged x
      → Unnamed x.plan_id executions
      → Lockstep cases plans (insert x.id x executions)
  write_execution x p fresh at m done unnamed = record {
    own_cases = l.own_cases;
    own_plans = l.own_plans;
    own_executions = Owned-insert (λ (x : Execution). x.id) x executions l.own_executions;
    partner = λ k y found. elim (found_after x.id k x y executions found) [
      | inl (_, same) ↦
          subst (λ (y : Execution). (q : Plan) × (lookup y.plan_id plans ≡ some q) × Matches q y)
            same (p, at, m)
      | inr (_, before) ↦ l.partner k y before
    ];
    single = λ j k y z found other e. elim (found_after x.id j x y executions found) [
      | inl (here, same) ↦ elim (found_after x.id k x z executions other) [
        | inl (there, _) ↦ sym here ∙ there
        | inr (_, before) ↦
            absurd (unnamed k z before (sym e ∙ ap (λ (a : Execution). a.plan_id) (sym same)))
      ]
      | inr (_, before) ↦ elim (found_after x.id k x z executions other) [
        | inl (_, same) ↦
            absurd (unnamed j y before (e ∙ ap (λ (a : Execution). a.plan_id) (sym same)))
        | inr (_, behind) ↦ l.single j k y z before behind e
      ]
    ];
    executed = λ k q found begun.
        let (j, y, there, e) = l.executed k q found begun in
        (
          j,
          y,
          found_insert x.id j x y executions (λ same. elsewhere j y there (sym same)) there,
          e,
        );
    judged = λ k y found. elim (found_after x.id k x y executions found) [
      | inl (_, same) ↦ subst Judged same done
      | inr (_, before) ↦ l.judged k y before
    ];
  }
    where
      elsewhere : (j : ℕ) (y : Execution) → lookup j executions ≡ some y → j ≢ x.id
      elsewhere j y there same =
          ground (arith, fresh, sym (ap (λ (i : ℕ). lookup i executions) same) ∙ there)

  pub write_both :
      (x x' : Execution) (q' : Plan)
      → lookup x'.id executions ≡ some x
      → x.plan_id ≡ x'.plan_id
      → q'.id ≡ x'.plan_id
      → Matches q' x'
      → Judged x'
      → Lockstep cases (insert q'.id q' plans) (insert x'.id x' executions)
  write_both x x' q' there same_plan at m done = record {
    own_cases = l.own_cases;
    own_plans = Owned-insert (λ (p : Plan). p.id) q' plans l.own_plans;
    own_executions = Owned-insert (λ (x : Execution). x.id) x' executions l.own_executions;
    partner = λ k y found. elim (found_after x'.id k x' y executions found) [
      | inl (_, same) ↦
          subst
            (λ (y : Execution).
              (q : Plan) × (lookup y.plan_id (insert q'.id q' plans) ≡ some q) × Matches q y)
            same
            (
              q',
              ap (λ (i : ℕ). lookup i (insert q'.id q' plans)) (sym at)
                  ∙ lookup-insert_self q'.id q' plans,
              m,
            )
      | inr (other, before) ↦
          let (q, has, fits) = l.partner k y before in
          (
            q,
            found_insert q'.id y.plan_id q' q plans
                (λ e. other (l.single x'.id k x y there before (same_plan ∙ sym at ∙ e))) has,
            fits,
          )
    ];
    single = λ j k y z found other e. elim (found_after x'.id j x' y executions found) [
      | inl (here, same) ↦ elim (found_after x'.id k x' z executions other) [
        | inl (beside, _) ↦ sym here ∙ beside
        | inr (_, before) ↦
            sym here
            ∙ l.single x'.id k x z there before
                (same_plan ∙ ap (λ (a : Execution). a.plan_id) same ∙ e)
      ]
      | inr (_, before) ↦ elim (found_after x'.id k x' z executions other) [
        | inl (here, same) ↦
            l.single j x'.id y x before there
              (e ∙ ap (λ (a : Execution). a.plan_id) (sym same) ∙ sym same_plan)
            ∙ here
        | inr (_, behind) ↦ l.single j k y z before behind e
      ]
    ];
    executed = λ k r found begun. elim (found_after q'.id k q' r plans found) [
      | inl (here, _) ↦ (x'.id, x', lookup-insert_self x'.id x' executions, sym at ∙ here)
      | inr (other, before) ↦
          let (j, y, has, e) = l.executed k r before begun in
          (
            j,
            y,
            found_insert x'.id j x' y executions
                (λ same. other (
                  at
                  ∙ sym same_plan
                  ∙ ap (λ (a : Execution). a.plan_id)
                      (same_value x'.id j x y executions same there has)
                  ∙ e))
                has,
            e,
          )
    ];
    judged = λ k y found. elim (found_after x'.id k x' y executions found) [
      | inl (_, same) ↦ subst Judged same done
      | inr (_, before) ↦ l.judged k y before
    ];
  }

  -- A write of an execution that stays with its plan.
  pub write_results :
      (x x' : Execution) (p : Plan)
      → lookup x'.id executions ≡ some x
      → x.plan_id ≡ x'.plan_id
      → lookup x'.plan_id plans ≡ some p
      → Matches p x'
      → Judged x'
      → Lockstep cases plans (insert x'.id x' executions)
  write_results x x' p there same_plan at m done =
      let own = l.own_plans x'.plan_id p at in
      subst (λ (d : Dict ℕ Plan). Lockstep cases d (insert x'.id x' executions))
        (insert-same p.id p plans (ap (λ (i : ℕ). lookup i plans) own ∙ at))
        (write_both x x' p there same_plan own m done)

  pub drop_execution :
      (x : Execution)
      → lookup x.id executions ≡ some x
      → x.status ≡ ExecutionStatus.created
      → Lockstep cases plans (remove x.id executions)
  drop_execution x there fresh = record {
    own_cases = l.own_cases;
    own_plans = l.own_plans;
    own_executions = Owned-remove (λ (x : Execution). x.id) x.id executions l.own_executions;
    partner = λ k y found. l.partner k y (found_left x.id k y executions found).1;
    single = λ j k y z found other.
        l.single j k y z (found_left x.id j y executions found).1
          (found_left x.id k z executions other).1;
    executed = λ k p found begun.
        let (j, y, has, e) = l.executed k p found begun in
        (
          j,
          y,
          left_after x.id j y executions (λ same. unbegun k p j y found begun has e same) has,
          e,
        );
    judged = λ k y found. l.judged k y (found_left x.id k y executions found).1;
  }
    where
      unbegun :
          (k : ℕ) (p : Plan) (j : ℕ) (y : Execution)
          → lookup k plans ≡ some p
          → is_begun p.status ≡ true
          → lookup j executions ≡ some y
          → y.plan_id ≡ k
          → x.id ≢ j
      unbegun k p j y found begun has e same =
          let (q, at, m) = l.partner x.id x there in
          let x_y = same_value x.id j x y executions same there has in
          let q_p =
            same_value x.plan_id k q p plans (ap (λ (a : Execution). a.plan_id) x_y ∙ e) at found in
          absurd (
            cc (
              sym begun
              ∙ ap (λ (a : Plan). is_begun a.status) (sym q_p)
              ∙ ap is_begun m.0
              ∙ ap (λ (t : ExecutionStatus). is_begun (plan_status t)) fresh))
