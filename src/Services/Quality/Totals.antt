-- ===== src/Services/Quality/Totals.antt =====
-- The trends of a report against its summary (backend/app/services/quality.py).
use qa_platform_learning.Common.Tests.{
  ℕ, ◌+◌, ◌≡◌, refl, sym, ap, ◌∙◌, inl, inr, Bool, true, false, ◌&&◌, Option, none, some, List, [],
  ◌∷◌, ◌++◌, arith, Bool-cases, if◌then◌else◌, ◌==◌,
}
use qa_platform_learning.Common.Lists.{select, length, All}
use qa_platform_learning.Services.Models.Status.{
  ResultStatus, result_status_keyed, execution_status_keyed,
}
use qa_platform_learning.Services.Models.Records.{Execution, CaseResult}
use qa_platform_learning.Services.Models.Audit.{AuditEvent}
use qa_platform_learning.Services.Defects.Model.{Defect}
use qa_platform_learning.Services.Quality.Figures.{count, within, results_of, counted}
use qa_platform_learning.Services.Quality.Summary.{
  selected_executions, is_selected, project_defects, is_reopened, execution_summary, defect_summary,
}
use qa_platform_learning.Services.Quality.Trends.{
  Granularity, Span, period_of, period_bucket_starts, in_bucket, in_span, TrendPoint,
  bucket_executions, bucket_defects, trend_point, trends,
}
use qa_platform_learning.Services.Quality.Buckets.{
  one_bucket, in_span-within, sum, weigh, spread, sum-cong, sum-map, count-weigh, weigh-cong,
}

count-append :
    {A : Type 0} (p : A → Bool) (xs ys : List A) → count p (xs ++ ys) ≡ count p xs + count p ys
count-append p [] ys = ground arith
count-append p (x ∷ xs) ys = ground (arith, count-append p xs ys)

length-weigh :
    {A : Type 0} (p : A → Bool) (xs : List A) → length (select p xs) ≡ weigh p (λ _. 1) xs
length-weigh p [] = refl
length-weigh p (x ∷ xs) = ground (arith, length-weigh p xs)

abbrev weight : ResultStatus → Execution → ℕ
weight status x = count (λ (r : CaseResult). r.status == status) x.results

counted-weigh :
    (status : ResultStatus) (p : Execution → Bool) (xs : List Execution)
    → counted status (select p xs) ≡ weigh p (weight status) xs
counted-weigh status p [] = refl
counted-weigh status p (x ∷ xs) = elim (Bool-cases (p x)) [
  | inl has ↦ rw has (
      count-append (λ (r : CaseResult). r.status == status) x.results (results_of (select p xs))
      ∙ ap (λ n. weight status x + n) (counted-weigh status p xs))
  | inr lacks ↦ rw lacks (counted-weigh status p xs)
]

counted-all :
    (status : ResultStatus) (xs : List Execution)
    → counted status xs ≡ weigh (λ _. true) (weight status) xs
counted-all status [] = refl
counted-all status (x ∷ xs) =
    count-append (λ (r : CaseResult). r.status == status) x.results (results_of xs)
    ∙ ap (λ n. weight status x + n) (counted-all status xs)

length-all : {A : Type 0} (xs : List A) → length xs ≡ weigh (λ _. true) (λ _. 1) xs
length-all [] = refl
length-all (x ∷ xs) = ground (arith, length-all xs)

count-select :
    {A : Type 0} (p : A → Bool) (xs : List A)
    → count p xs ≡ weigh (λ _. true) (λ _. 1) (select p xs)
count-select p [] = refl
count-select p (x ∷ xs) = ground (arith, count-select p xs)

never : (bs : List ℕ) → count (λ (b : ℕ). false) bs ≡ 0
never [] = refl
never (b ∷ bs) = never bs

All-of : {A : Type 0} {P : A → Type 0} → ((x : A) → P x) → (xs : List A) → All P xs
All-of h [] = tt
All-of h (x ∷ xs) = (h x, All-of h xs)

abbrev pub AddsUp : (TrendPoint → ℕ) → List TrendPoint → ℕ → Type 0
AddsUp figure points total = sum figure points ≡ total

module _ (s : Span) (g : Granularity) where
  inside :
      (time : Option ℕ)
      → within (period_of s) time ≡ true
      → count (λ b. in_bucket g s.offset b time) (period_bucket_starts s g) ≡ 1
  inside none h = absurd (cc)
  inside (some time) h = one_bucket s g time (sym (in_span-within s (some time)) ∙ h)

  -- Each selected execution falls in one bucket.
  selected_once :
      (project_id : ℕ) (xs : List Execution)
      → All
          (λ (x : Execution).
            count (λ b. in_bucket g s.offset b x.completed_at) (period_bucket_starts s g) ≡ 1)
          (selected_executions project_id (period_of s) xs)
  selected_once project_id [] = tt
  selected_once project_id (x ∷ xs) = elim (Bool-cases (is_selected project_id (period_of s) x)) [
    | inl chosen ↦
        rw chosen (inside x.completed_at (ground (arith, chosen)), selected_once project_id xs)
    | inr other ↦ rw other (selected_once project_id xs)
  ]

  reopened_once :
      (project_id : ℕ) (es : List (ℕ × AuditEvent))
      → All
          (λ (e : ℕ × AuditEvent).
            count (λ b. in_bucket g s.offset b (some e.0)) (period_bucket_starts s g) ≡ 1)
          (select (is_reopened project_id (period_of s)) es)
  reopened_once project_id [] = tt
  reopened_once project_id ((time, e) ∷ es) =
      elim (Bool-cases (is_reopened project_id (period_of s) (time, e))) [
        | inl chosen ↦
            rw chosen (inside (some time) (ground (arith, chosen)), reopened_once project_id es)
        | inr other ↦ rw other (reopened_once project_id es)
      ]

  -- A time falls in one bucket if it is in the span.
  span_once :
      (time : Option ℕ)
      → count (λ b. in_span s time && in_bucket g s.offset b time) (period_bucket_starts s g)
        ≡ (if in_span s time then 1 else 0)
  span_once none = never (period_bucket_starts s g)
  span_once (some time) = elim (Bool-cases (in_span s (some time))) [
    | inl in_it ↦ rw in_it (one_bucket s g time in_it)
    | inr out ↦ rw out (never (period_bucket_starts s g))
  ]

  -- What the buckets count of elements with one bucket each.
  spread_total :
      {A : Type 0} (p : ℕ → A → Bool) (w : A → ℕ) (f : ℕ → ℕ) (xs : List A) (total : ℕ)
      → All (λ x. count (λ b. p b x) (period_bucket_starts s g) ≡ 1) xs
      → ((b : ℕ) → f b ≡ weigh (p b) w xs)
      → total ≡ weigh (λ _. true) w xs
      → sum f (period_bucket_starts s g) ≡ total
  spread_total p w f xs total once each whole =
      sum-cong f (λ b. weigh (p b) w xs) each (period_bucket_starts s g)
      ∙ spread p (λ _. true) w (period_bucket_starts s g) xs once
      ∙ sym whole

  -- The results of one status.
  results_total :
      (status : ResultStatus) (project_id : ℕ) (xs : List Execution)
      → sum
          (λ b.
            counted status
              (bucket_executions s g b (selected_executions project_id (period_of s) xs)))
          (period_bucket_starts s g)
        ≡ counted status (selected_executions project_id (period_of s) xs)
  results_total status project_id xs =
      let own = selected_executions project_id (period_of s) xs in
      spread_total (λ b (x : Execution). in_bucket g s.offset b x.completed_at) (weight status) _
        own _ (selected_once project_id xs)
        (λ b. counted-weigh status (λ (x : Execution). in_bucket g s.offset b x.completed_at) own)
        (counted-all status own)

  -- The defects by one of their times.
  defects_total :
      (time : Defect → Option ℕ) (ds : List Defect)
      → sum (λ b. bucket_defects s g time b ds) (period_bucket_starts s g)
        ≡ count (λ (d : Defect). within (period_of s) (time d)) ds
  defects_total time ds =
      sum-cong _ _
        (λ b.
          count-weigh (λ (d : Defect). in_span s (time d) && in_bucket g s.offset b (time d)) ds)
        (period_bucket_starts s g)
      ∙ spread (λ b (d : Defect). in_span s (time d) && in_bucket g s.offset b (time d))
          (λ (d : Defect). in_span s (time d)) (λ _. 1) (period_bucket_starts s g) ds
          (All-of (λ (d : Defect). span_once (time d)) ds)
      ∙ sym (
          weigh-cong (λ (d : Defect). within (period_of s) (time d))
            (λ (d : Defect). in_span s (time d)) (λ _. 1)
            (λ (d : Defect). in_span-within s (time d)) ds)
      ∙ sym (count-weigh (λ (d : Defect). within (period_of s) (time d)) ds)

  -- The trends of a report add up to its summary, by days and by weeks, for every project, span and zone: over the
  -- points, the completed executions, the results by each status, and the defects created, resolved, closed and
  -- reopened sum to the figures of the period.
  pub trends_add_up :
      (project_id : ℕ) (executions : List Execution) (defects : List Defect)
      (audits : List (ℕ × AuditEvent))
      → let points = trends s g project_id executions defects audits in
        let e = execution_summary project_id (period_of s) executions defects in
        let d = defect_summary project_id (period_of s) defects audits in
        AddsUp (λ p. p.completed_executions) points e.completed_executions
        × AddsUp (λ p. p.passed) points e.passed
        × AddsUp (λ p. p.failed) points e.failed
        × AddsUp (λ p. p.blocked) points e.blocked
        × AddsUp (λ p. p.skipped) points e.skipped
        × AddsUp (λ p. p.not_run) points e.not_run
        × AddsUp (λ p. p.defects_created) points d.created_in_period
        × AddsUp (λ p. p.defects_resolved) points d.resolved_in_period
        × AddsUp (λ p. p.defects_closed) points d.closed_in_period
        × AddsUp (λ p. p.defects_reopened) points d.reopened_in_period
  unfolding trends execution_summary defect_summary
  trends_add_up project_id executions defects audits =
      let own = selected_executions project_id (period_of s) executions in
      let events = select (is_reopened project_id (period_of s)) audits in
      let point = trend_point s g own (project_defects project_id defects) events in
      let bs = period_bucket_starts s g in
      let of_status = λ (status : ResultStatus). results_total status project_id executions in
      (
        sum-map (λ (p : TrendPoint). p.completed_executions) point bs
            ∙ spread_total (λ b (x : Execution). in_bucket g s.offset b x.completed_at) (λ _. 1) _
                own _ (selected_once project_id executions)
                (λ b. length-weigh (λ (x : Execution). in_bucket g s.offset b x.completed_at) own)
                (length-all own),
        sum-map (λ (p : TrendPoint). p.passed) point bs ∙ of_status ResultStatus.passed,
        sum-map (λ (p : TrendPoint). p.failed) point bs ∙ of_status ResultStatus.failed,
        sum-map (λ (p : TrendPoint). p.blocked) point bs ∙ of_status ResultStatus.blocked,
        sum-map (λ (p : TrendPoint). p.skipped) point bs ∙ of_status ResultStatus.skipped,
        sum-map (λ (p : TrendPoint). p.not_run) point bs ∙ of_status ResultStatus.not_run,
        sum-map (λ (p : TrendPoint). p.defects_created) point bs
            ∙ defects_total (λ d. some d.created_at) (project_defects project_id defects),
        sum-map (λ (p : TrendPoint). p.defects_resolved) point bs
            ∙ defects_total (λ d. d.resolved_at) (project_defects project_id defects),
        sum-map (λ (p : TrendPoint). p.defects_closed) point bs
            ∙ defects_total (λ d. d.closed_at) (project_defects project_id defects),
        sum-map (λ (p : TrendPoint). p.defects_reopened) point bs
            ∙ spread_total (λ b (e : ℕ × AuditEvent). in_bucket g s.offset b (some e.0)) (λ _. 1) _
                events _ (reopened_once project_id audits)
                (λ b.
                  count-weigh (λ (e : ℕ × AuditEvent). in_bucket g s.offset b (some e.0)) events)
                (count-select (is_reopened project_id (period_of s)) audits),
      )
