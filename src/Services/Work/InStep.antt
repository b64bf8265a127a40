-- ===== src/Services/Work/InStep.antt =====
-- What the calls on plans and executions may rely on while plans and executions are in step.
use qa_platform_learning.Common.Tests.{
  ℕ, ◌≡◌, ◌≢◌, refl, sym, ap, ◌∙◌, inl, inr, false, some, List, [], ◌∷◌, arith, nat_keyed, nat_beq,
  nat_beq_iff,
}
use qa_platform_learning.Common.Dict.{lookup, contains}
use qa_platform_learning.Common.Lookup.{same_value}
use qa_platform_learning.Common.Result.{Result, ok, err}
use qa_platform_learning.Common.Holds.{Holds, Holds-pure, bind-find}
use qa_platform_learning.Services.Errors.{ServiceError}
use qa_platform_learning.Services.Reads.{bind-reads, any-lookup}
use qa_platform_learning.Services.Models.Status.{PlanStatus, ExecutionStatus, result_status_keyed}
use qa_platform_learning.Services.Models.Records.{Plan, Execution, CaseResult}
use qa_platform_learning.Services.Store.{Store}
use qa_platform_learning.Services.Plans.Operations.{is_executed, with_status}
use qa_platform_learning.Services.Plans.Effects.{UserMove}
use qa_platform_learning.Services.Executions.Operations.{new_results, started, finished}
use qa_platform_learning.Services.Executions.Effects.{both, new_results-Still, Moves}
use qa_platform_learning.Services.Work.Lockstep.{
  plan_status, is_begun, case_ids_of, Judged, Lockstep, Unnamed, write_both,
}
use mathlib.Core.Path.{subst}

-- `Lockstep` of a store's repositories.
abbrev pub InStep : Store → Type 0
InStep s = Lockstep s.cases s.plans s.executions

module _ (s : Store) (l : InStep s) where
  -- A plan that is draft has no execution.
  pub draft-Unnamed :
      (id : ℕ) (p : Plan)
      → lookup id s.plans ≡ some p
      → p.status ≡ PlanStatus.draft
      → Unnamed id s.executions
  draft-Unnamed id p found drafts k x has e =
      let (q, at, m) = l.partner k x has in
      let same = same_value x.plan_id id q p s.plans e at found in
      drawn x.status (sym m.0 ∙ ap (λ (a : Plan). a.status) same ∙ drafts)
    where
      drawn : (t : ExecutionStatus) → plan_status t ≢ PlanStatus.draft
      drawn t h = ground arith

  -- Nor has one that the list of executions does not name.
  pub unexecuted-Unnamed : (id : ℕ) → is_executed id s ≡ false → Unnamed id s.executions
  unexecuted-Unnamed id unused k x has e =
      let quiet =
        any-lookup (λ (x : Execution). nat_beq x.plan_id id) k x s.executions unused has in
      absurd (cc (sym quiet ∙ (nat_beq_iff x.plan_id id).1 e))

  pub absent-Unnamed : (id : ℕ) → contains id s.plans ≡ false → Unnamed id s.executions
  absent-Unnamed id fresh k x has e =
      let (q, at, m) = l.partner k x has in
      ground (arith, fresh, sym (ap (λ (i : ℕ). lookup i s.plans) e) ∙ at)

  abbrev Ids : List ℕ → Result ServiceError (List CaseResult) → Store → Type 0
  Ids ids (ok results) t = case_ids_of results ≡ ids
  Ids ids (err e) t = Unit

  new_results-Ids : (ids : List ℕ) → Holds (Ids ids) (new_results ids) s
  unfolding new_results
  new_results-Ids [] = Holds-pure _ s refl
  new_results-Ids (id ∷ ids) =
      bind-find _ _ _ s (λ _. tt)
        λ c found.
          bind-reads _ _ s (new_results-Still ids s) (λ _. tt)
            λ rest made. Holds-pure _ s (
              ap (λ (i : ℕ). i ∷ case_ids_of rest) (l.own_cases id c found)
              ∙ ap (λ (is : List ℕ). id ∷ is)
                  (subst (λ (o : Result ServiceError (List CaseResult) × Store). Ids ids o.0 o.1)
                    made (new_results-Ids ids).at))

  pub made-Ids :
      (ids : List ℕ) (results : List CaseResult)
      → new_results ids s ≡ (ok results, s)
      → case_ids_of results ≡ ids
  made-Ids ids results made =
      subst (λ (o : Result ServiceError (List CaseResult) × Store). Ids ids o.0 o.1) made
        (new_results-Ids ids).at

  pub executed-Unnamed :
      (id : ℕ) (p q : Plan) (target : PlanStatus)
      → lookup id s.plans ≡ some p
      → UserMove p target s
      → lookup p.id s.plans ≡ some q
      → Unnamed q.id s.executions × (is_begun target ≡ false)
  executed-Unnamed id p q target found (inl (drafts, goal, _)) there =
      let same = same_value id p.id p q s.plans (sym (l.own_plans id p found)) found there in
      (
        draft-Unnamed q.id q (ap (λ (i : ℕ). lookup i s.plans) (l.own_plans p.id q there) ∙ there)
            (ap (λ (a : Plan). a.status) (sym same) ∙ drafts),
        ap is_begun goal,
      )
  executed-Unnamed id p q target found (inr (_, goal, unused)) there = (
    subst (λ (i : ℕ). Unnamed i s.executions) (sym (l.own_plans p.id q there))
        (unexecuted-Unnamed p.id unused),
    ap is_begun goal,
  )

  -- The hypotheses of `write_both` for a move of the execution `x` that is found.
  pub Moves-InStep :
      (id : ℕ) (x : Execution) (now : ℕ) → lookup id s.executions ≡ some x → Moves InStep x now s
  Moves-InStep id x now found = record {
    starts = λ fresh _ p q _ _ has.
        step (started now x) refl refl refl refl q has λ e. absurd (ground (arith, e));
    completes = λ _ done q has.
        step (finished ExecutionStatus.completed now x) refl refl refl refl q has λ _. done;
    cancels = λ _ q has.
        step (finished ExecutionStatus.cancelled now x) refl refl refl refl q has
          λ e. absurd (ground (arith, e));
  }
    where
      step :
          (x' : Execution)
          → x'.id ≡ x.id
          → x'.plan_id ≡ x.plan_id
          → x'.project_id ≡ x.project_id
          → x'.results ≡ x.results
          → (q : Plan) → lookup x.plan_id s.plans ≡ some q
          → Judged x'
          → InStep (both x' (with_status (plan_status x'.status) now q) s)
      step x' id_same plan_same project_same results_same q has done =
          let (p, at, m) = l.partner id x found in
          let same = same_value x.plan_id x.plan_id p q s.plans refl at has in
          write_both l x x' (with_status (plan_status x'.status) now q)
            (ap (λ (i : ℕ). lookup i s.executions) (id_same ∙ l.own_executions id x found) ∙ found)
            (sym plan_same) (l.own_plans x.plan_id q has ∙ sym plan_same)
            (
              refl,
              project_same ∙ m.1 ∙ ap (λ (a : Plan). a.project_id) same,
              ap case_ids_of results_same ∙ m.2 ∙ ap (λ (a : Plan). a.case_ids) same,
            )
            done
