-- ===== src/Services/Work/Forests.antt =====
-- Every call of the services keeps the suites a forest with names that are unique among siblings.
use qa_platform_learning.Common.Tests.{
  ℕ, suc, ◌≡◌, ◌≢◌, refl, sym, ap, ◌∙◌, ◌⊎◌, inl, inr, true, false, String, Option, none, some,
  List, [], ◌∷◌, arith, nat_keyed, nat_beq, nat_beq_iff, text_keyed,
}
use qa_platform_learning.Common.Lists.{length}
use qa_platform_learning.Common.Dict.{lookup}
use qa_platform_learning.Common.Result.{Result, ok}
use qa_platform_learning.Services.Errors.{ServiceError}
use qa_platform_learning.Services.Reads.{any-lookup}
use qa_platform_learning.Services.Models.Records.{Suite}
use qa_platform_learning.Services.Store.{Store}
use qa_platform_learning.Services.Suites.Operations.{
  same_id, validate_parent, new_suite, edited_suite, touched_suite, with_suite_status, takes_name,
  validate_new_parent,
}
use qa_platform_learning.Services.Suites.Forest.{Climbs, Alike, Forest, Lone, plant, graft, fell}
use qa_platform_learning.Services.Plans.Operations.{or_old}
use qa_platform_learning.Services.Suites.Walk.{walk_up-Climbs}
use qa_platform_learning.Services.Plans.Effects.{
  create_plan-effect, update_plan-effect, transition_plan-effect, delete_plan-effect,
}
use qa_platform_learning.Services.Executions.Apart.{transition_execution-Apart}
use qa_platform_learning.Services.Executions.Effects.{
  create_execution-effect, update_case_result-effect, delete_execution-effect,
}
use qa_platform_learning.Services.Cases.Effects.{
  create_case-effect, update_case-effect, transition_case-effect, delete_case-effect,
}
use qa_platform_learning.Services.Suites.Effects.{
  OnlyName, create_suite-effect, update_suite-effect, transition_suite-effect, delete_suite-effect,
}
use qa_platform_learning.Services.Projects.Effects.{
  create_project-effect, update_project-effect, transition_project-effect, delete_project-effect,
}
use qa_platform_learning.Services.Defects.Effects.{
  create_defect-effect, update_defect-effect, transition_defect-effect,
}
use qa_platform_learning.Services.Work.Requests.{
  Request, after, after_all, new_project_call, edit_project_call, move_project_call,
  drop_project_call, new_suite_call, edit_suite_call, move_suite_call, drop_suite_call,
  new_case_call, edit_case_call, move_case_call, drop_case_call, new_plan_call, edit_plan_call,
  move_plan_call, drop_plan_call, new_execution_call, move_execution_call, judge_call,
  drop_execution_call, new_defect_call, edit_defect_call, move_defect_call,
}

same_id_refl : (a : Option ℕ) → same_id a a ≡ true
same_id_refl none = refl
same_id_refl (some a) = (nat_beq_iff a a).1 refl

ok_of :
    {s : Store} {r : Result ServiceError (Unit {0})}
    → ◌≡◌ {A = Result ServiceError (Unit {0}) × Store} (r, s) (ok tt, s)
    → r ≡ ok tt
ok_of h = ap (λ (o : Result ServiceError (Unit {0}) × Store). o.0) h

module _ (casefold : String → String) where
  -- The suites of a store.
  abbrev pub IsForest : Store → Type 0
  IsForest s = Forest casefold s.suites

  taken :
      (x y : Suite) (e : Option ℕ)
      → Alike casefold x y
      → same_id (some y.id) e ≡ false
      → takes_name casefold x.project_id x.parent_id x.name e y ≡ true
  unfolding takes_name
  taken x y e (same_project, same_parent, same_name) other = ground (
    arith,
    other,
    (nat_beq_iff y.project_id x.project_id).1 (sym same_project),
    ap (λ (p : Option ℕ). same_id y.parent_id p) same_parent ∙ same_id_refl y.parent_id,
    (text_keyed.agree_iff (casefold y.name) (casefold x.name)).1 (sym same_name),
  )

  -- What the test of the name tells of the stored suites.
  OnlyName-Lone :
      (s : Store) (f : IsForest s) (x : Suite) (i : ℕ) (e : Option ℕ)
      → ((k : ℕ) → i ≢ k → same_id (some k) e ≡ false)
      → OnlyName casefold e x s
      → Lone casefold i x s.suites
  OnlyName-Lone s f x i e others only k y found apart alike =
      let other = ap (λ (j : ℕ). same_id (some j) e) (f.own k y found) ∙ others k apart in
      absurd (
        cc (
          sym (
            any-lookup (takes_name casefold x.project_id x.parent_id x.name e) k y s.suites only
              found)
          ∙ taken x y e alike other))

  -- A write that keeps a stored suite's project, parent and name keeps it lone.
  kept-Lone :
      (s : Store) (f : IsForest s) (i : ℕ) (x x' : Suite)
      → lookup i s.suites ≡ some x
      → (Alike casefold x' x)
      → Lone casefold i x' s.suites
  kept-Lone s f i x x' at (p, q, n) k y found apart (a, b, c) =
      apart (f.named i k x y at found (sym p ∙ a, sym q ∙ b, sym n ∙ c))

  new_parent :
      (s : Store) (x : Suite) (given : Option (Option ℕ))
      → validate_new_parent casefold x given s ≡ (ok tt, s)
      → (or_old x.parent_id given ≡ x.parent_id)
        ⊎ ((n : ℕ) × Climbs (some x.id) n s.suites (or_old x.parent_id given))
  unfolding validate_parent
  new_parent s x none fits = inl refl
  new_parent s x (some parent) fits = inr (
    suc (length s.suites),
    walk_up-Climbs s.suites x.project_id (some x.id) (suc (length s.suites)) [] parent (ok_of fits),
  )

  nat_apart : (i k : ℕ) → i ≢ k → nat_beq k i ≡ false
  nat_apart i k apart = ground arith

module _ (upper lower casefold strip : String → String) where
  after-IsForest :
      (r : Request) (s : Store)
      → IsForest casefold s
      → IsForest casefold (after upper lower casefold strip r s)
  unfolding after validate_parent
  after-IsForest (new_project_call key name description now i) s f =
      (create_project-effect (IsForest casefold) upper key name description now i s f λ _. f).at
  after-IsForest (edit_project_call id e now) s f =
      (update_project-effect (IsForest casefold) id e now s f λ _ _. f).at
  after-IsForest (move_project_call id target now) s f =
      (transition_project-effect (IsForest casefold) id target now s f λ _ _ _. f).at
  after-IsForest (drop_project_call id) s f =
      (delete_project-effect (IsForest casefold) id s f λ _ _ _ _. f).at
  after-IsForest (new_suite_call p now i) s f =
      (create_suite-effect (IsForest casefold) casefold p now i s f λ fits fresh only _.
        plant casefold s.suites f (new_suite p now i) fresh
          (
            suc (length s.suites),
            walk_up-Climbs s.suites p.project_id none (suc (length s.suites)) [] p.parent_id
                (ok_of fits),
          )
          (OnlyName-Lone casefold s f (new_suite p now i) i none (λ _ _. refl) only)).at
  after-IsForest (edit_suite_call id e now) s f =
      (update_suite-effect (IsForest casefold) casefold id e now s f λ x found fits only _.
        graft casefold s.suites f x (touched_suite now (edited_suite e x))
          (ap (λ (j : ℕ). lookup j s.suites) (f.own id x found) ∙ found)
          (new_parent casefold s x e.parent_id fits)
          (OnlyName-Lone casefold s f (edited_suite e x) x.id (some x.id)
            (λ k. nat_apart casefold x.id k) only)).at
  after-IsForest (move_suite_call id target now) s f =
      (transition_suite-effect (IsForest casefold) id target now s f λ x found _.
        let at = ap (λ (j : ℕ). lookup j s.suites) (f.own id x found) ∙ found in
        graft casefold s.suites f x (with_suite_status target now x) at (inl refl)
          (kept-Lone casefold s f x.id x (with_suite_status target now x) at (refl, refl, refl))).at
  after-IsForest (drop_suite_call id) s f =
      (delete_suite-effect (IsForest casefold) id s f λ x _ childless _ _.
        fell casefold s.suites f x.id λ k y found e. absurd (
          cc (
            sym (
              any-lookup (λ (y : Suite). same_id y.parent_id (some x.id)) k y s.suites childless
                found)
            ∙ ap (λ (p : Option ℕ). same_id p (some x.id)) e
            ∙ same_id_refl (some x.id)))).at
  after-IsForest (new_case_call p now i) s f =
      (create_case-effect (IsForest casefold) strip lower p now i s f λ _. f).at
  after-IsForest (edit_case_call id e now) s f =
      (update_case-effect (IsForest casefold) strip lower id e now s f λ _ _ _. f).at
  after-IsForest (move_case_call id target now) s f =
      (transition_case-effect (IsForest casefold) id target now s f λ _ _ _ _. f).at
  after-IsForest (drop_case_call id) s f =
      (delete_case-effect (IsForest casefold) id s f λ _ _ _. f).at
  after-IsForest (new_plan_call p now i) s f =
      (create_plan-effect (IsForest casefold) p now i s f λ _ _. f).at
  after-IsForest (edit_plan_call id e now) s f =
      (update_plan-effect (IsForest casefold) id e now s f λ _ _ _. f).at
  after-IsForest (move_plan_call id target now) s f =
      (transition_plan-effect (IsForest casefold) id target now s f λ _ _ _ _ _. f).at
  after-IsForest (drop_plan_call id) s f =
      (delete_plan-effect (IsForest casefold) id s f λ _ _ _. f).at
  after-IsForest (new_execution_call plan_id now i) s f =
      (create_execution-effect (IsForest casefold) plan_id now i s f λ _ _ _ _ _ _ _ _. f).at
  after-IsForest (move_execution_call id target now) s f =
      (transition_execution-Apart (IsForest casefold) id target now s λ _ _. f).at
  after-IsForest (judge_call id case_id status actual comment now later) s f =
      (update_case_result-effect (IsForest casefold) id case_id status actual comment now later s f
        λ _ _ _ _. f).at
  after-IsForest (drop_execution_call id) s f =
      (delete_execution-effect (IsForest casefold) id s f λ _ _ _. f).at
  after-IsForest (new_defect_call p actor now i) s f =
      (create_defect-effect (IsForest casefold) p actor now i s f λ _ _. f).at
  after-IsForest (edit_defect_call id e now) s f =
      (update_defect-effect (IsForest casefold) strip id e now s f λ _ _ _. f).at
  after-IsForest (move_defect_call id p now) s f =
      (transition_defect-effect (IsForest casefold) strip id p now s f λ _ _ _ _. f).at

  -- After any run of calls of the services the suites are a forest if they were at its start: every suite stands
  -- under its id, from every suite the parents lead to a root, so no suite is its own ancestor, and no two suites
  -- of a project have the same parent and the same name, whatever the case.
  pub after_all-IsForest :
      (rs : List Request) (s : Store)
      → IsForest casefold s
      → IsForest casefold (after_all upper lower casefold strip rs s)
  after_all-IsForest [] s f = f
  after_all-IsForest (r ∷ rs) s f =
      after_all-IsForest rs (after upper lower casefold strip r s) (after-IsForest r s f)
