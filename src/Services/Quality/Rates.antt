-- ===== src/Services/Quality/Rates.antt =====
-- What the quality figures say of each other and of the stored executions (backend/app/services/quality.py).
use qa_platform_learning.Common.Tests.{
  ℕ, suc, ◌+◌, ◌<◌, ◌≤◌, ◌≡◌, refl, sym, ap, ◌∙◌, inl, inr, Bool, true, false, Option, none, some,
  List, [], ◌∷◌, map, arith, nat_keyed, nat_beq_iff, Bool-cases, if◌then◌else◌, ◌==◌,
}
use qa_platform_learning.Common.Lists.{any, select, length, All}
use qa_platform_learning.Services.Models.Status.{
  ResultStatus, execution_status_keyed, result_status_keyed,
}
use qa_platform_learning.Services.Models.Records.{Case, Execution, CaseResult}
use qa_platform_learning.Services.Defects.Model.{Defect}
use qa_platform_learning.Services.Quality.Figures.{
  count, Rate, results_of, same_pair, add_pair, failure_pairs, pair_of, link, linked_pairs,
  reached_active, reached_case_ids,
}
use qa_platform_learning.Services.Quality.Summary.{
  active_cases, project_defects, selected_executions, case_summary, execution_summary, is_reopened,
}
use qa_platform_learning.Services.Models.Audit.{AuditEvent}
use qa_platform_learning.Services.Quality.Trends.{
  Granularity, Span, period_of, period_bucket_starts, TrendPoint, trend_point, trends,
}

-- Every result has one of the five statuses.
counts_total :
    (rs : List CaseResult)
    → count (λ (r : CaseResult). r.status == ResultStatus.not_run) rs
        + (count (λ (r : CaseResult). r.status == ResultStatus.passed) rs
            + (count (λ (r : CaseResult). r.status == ResultStatus.failed) rs
                + (count (λ (r : CaseResult). r.status == ResultStatus.blocked) rs
                    + count (λ (r : CaseResult). r.status == ResultStatus.skipped) rs)))
      ≡ length rs
counts_total [] = refl
counts_total (r ∷ rs) = ground (arith, counts_total rs)

length-select : {A : Type 0} (p : A → Bool) (xs : List A) → length (select p xs) ≤ length xs
length-select p [] = ground arith
length-select p (x ∷ xs) = ground (arith, length-select p xs)

length-reached : (reached ids : List ℕ) → length (reached_active reached ids) ≤ length ids
length-reached reached [] = ground arith
length-reached reached (i ∷ ids) = ground (arith, length-reached reached ids)

abbrev has : List (ℕ × ℕ) → ℕ × ℕ → Bool
has ps p = any (λ q. same_pair q p) ps

same_pair_iff : (p q : ℕ × ℕ) → same_pair p q ≡ true → p ≡ q
same_pair_iff (a, b) (c, d) h =
    let first : a ≡ c = (nat_beq_iff a c).0 (ground (arith, h)) in
    let second : b ≡ d = (nat_beq_iff b d).0 (ground (arith, h)) in
    ap (λ (x : ℕ). (x, b)) first ∙ ap (λ (y : ℕ). (c, y)) second

abbrev without : ℕ × ℕ → List (ℕ × ℕ) → List (ℕ × ℕ)
without p [] = []
without p (q ∷ qs) = let rest = without p qs in if same_pair q p then rest else q ∷ rest

has-without :
    (p r : ℕ × ℕ) (qs : List (ℕ × ℕ))
    → same_pair p r ≡ false
    → has qs r ≡ true
    → has (without p qs) r ≡ true
has-without p r [] apart h = absurd (cc)
has-without p r (q ∷ qs) apart h = elim (Bool-cases (same_pair q p)) [
  | inl same ↦ rw same (
      has-without p r qs apart
        (ground (arith, h, ap (λ (x : ℕ × ℕ). same_pair x r) (same_pair_iff q p same), apart)))
  | inr other ↦ rw other (ground (arith, h, has-without p r qs apart))
]

length-without : (p : ℕ × ℕ) (qs : List (ℕ × ℕ)) → length (without p qs) ≤ length qs
length-without p [] = ground arith
length-without p (q ∷ qs) = ground (arith, length-without p qs)

length-without_there :
    (p : ℕ × ℕ) (qs : List (ℕ × ℕ)) → has qs p ≡ true → length (without p qs) < length qs
length-without_there p [] h = absurd (cc)
length-without_there p (q ∷ qs) h = elim (Bool-cases (same_pair q p)) [
  | inl same ↦ rw same (ground (arith, length-without p qs))
  | inr other ↦ rw other (ground (arith, length-without_there p qs (rw other at h)))
]

-- Pairs of a list, none twice.
abbrev Chosen : List (ℕ × ℕ) → List (ℕ × ℕ) → Type 0
Chosen qs [] = Unit
Chosen qs (p ∷ ps) = (has ps p ≡ false) × (has qs p ≡ true) × Chosen qs ps

Chosen-without :
    (qs : List (ℕ × ℕ)) (p : ℕ × ℕ) (ps : List (ℕ × ℕ))
    → has ps p ≡ false
    → Chosen qs ps
    → Chosen (without p qs) ps
Chosen-without qs p [] away h = tt
Chosen-without qs p (r ∷ ps) away h = (
  h.0,
  has-without p r qs (same_pair_sym (ground (arith, away))) h.1,
  Chosen-without qs p ps (ground (arith, away)) h.2,
)
  where
    same_pair_sym : same_pair r p ≡ false → same_pair p r ≡ false
    same_pair_sym e = elim (Bool-cases (same_pair p r)) [
      | inl same ↦
          absurd
            (cc (sym e ∙ ap (λ (x : ℕ × ℕ). same_pair r x) (same_pair_iff p r same) ∙ same_self r))
      | inr other ↦ other
    ]
      where
        same_self : (q : ℕ × ℕ) → same_pair q q ≡ true
        same_self (a, b) = ground (arith, (nat_beq_iff a a).1 refl, (nat_beq_iff b b).1 refl)

Chosen-length : (ps qs : List (ℕ × ℕ)) → Chosen qs ps → length ps ≤ length qs
Chosen-length [] qs h = ground arith
Chosen-length (p ∷ ps) qs h = ground (
  arith,
  Chosen-length ps (without p qs) (Chosen-without qs p ps h.0 h.2),
  length-without_there p qs h.1,
)

link-Chosen :
    (qs : List (ℕ × ℕ)) (o : Option (ℕ × ℕ)) (ps : List (ℕ × ℕ))
    → Chosen qs ps
    → Chosen qs (link qs o ps)
link-Chosen qs none ps h = h
link-Chosen qs (some p) ps h = elim (Bool-cases (has qs p)) [
  | inl known ↦ rw known (added known)
  | inr strange ↦ rw strange h
]
  where
    added : has qs p ≡ true → Chosen qs (add_pair p ps)
    added known = elim (Bool-cases (has ps p)) [
      | inl old ↦ rw old h
      | inr new ↦ rw new (new, known, h)
    ]

linked_pairs-Chosen : (qs : List (ℕ × ℕ)) (ds : List Defect) → Chosen qs (linked_pairs qs ds)
linked_pairs-Chosen qs [] = tt
linked_pairs-Chosen qs (d ∷ ds) =
    link-Chosen qs (pair_of d) (linked_pairs qs ds) (linked_pairs-Chosen qs ds)

abbrev pub IsProportion : Rate → Type 0
IsProportion r = r.numerator ≤ r.denominator

length-map : {A B : Type 0} (f : A → B) (xs : List A) → length (map f xs) ≡ length xs
length-map f [] = refl
length-map f (x ∷ xs) = ap (λ n. suc n) (length-map f xs)

points-IsProportion :
    (point : ℕ → TrendPoint)
    → ((b : ℕ) → IsProportion (point b).pass_rate)
    → (bs : List ℕ) → All (λ (p : TrendPoint). IsProportion p.pass_rate) (map point bs)
points-IsProportion point each [] = tt
points-IsProportion point each (b ∷ bs) = (each b, points-IsProportion point each bs)

-- For every project, span of dates and granularity, the results of a report are counted once each: their total is the
-- number of results of the selected executions, the five counts by status add up to it, and so do the executed
-- results and those not run. The three rates of its summary of executions, the two of its summary of cases, and the
-- pass rate of each point of its trends are proportions: no numerator is above its denominator.
pub summaries_agree :
    (s : Span) (g : Granularity) (project_id : ℕ) (cases : List Case) (executions : List Execution)
    (defects : List Defect) (audits : List (ℕ × AuditEvent))
    → let e = execution_summary project_id (period_of s) executions defects in
      let c = case_summary project_id (period_of s) cases executions in
      (e.total_results
        ≡ length (results_of (selected_executions project_id (period_of s) executions)))
      × (e.passed + e.failed + e.blocked + e.skipped + e.not_run ≡ e.total_results)
      × (e.executed_results + e.not_run ≡ e.total_results)
      × IsProportion e.completion_rate
      × IsProportion e.pass_rate
      × IsProportion e.failure_defect_coverage
      × IsProportion c.automation_coverage
      × IsProportion c.execution_reach
      × All
          (λ (p : TrendPoint). IsProportion p.pass_rate)
          (trends s g project_id executions defects audits)
unfolding execution_summary case_summary trends
summaries_agree s g project_id cases executions defects audits =
    let selected = selected_executions project_id (period_of s) executions in
    (
      counts_total (results_of selected),
      ground arith,
      ground arith,
      ground arith,
      ground arith,
      Chosen-length _ (failure_pairs selected)
          (linked_pairs-Chosen (failure_pairs selected) (project_defects project_id defects)),
      length-select _ (active_cases project_id cases),
      ground (
        arith,
        length-reached (reached_case_ids selected)
            (map (λ (c : Case). c.id) (active_cases project_id cases)),
        length-map (λ (c : Case). c.id) (active_cases project_id cases),
      ),
      points-IsProportion
          (trend_point s g selected (project_defects project_id defects)
            (select (is_reopened project_id (period_of s)) audits))
          (λ b. ground arith) (period_bucket_starts s g),
    )
