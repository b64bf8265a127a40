-- ===== src/Services/Quality/Trends.antt =====
-- The trends of `QualityService.report`, backend/app/services/quality.py. The counters of a bucket are given as
-- what they count.
use qa_platform_learning.Common.Tests.{
  ℕ, zero, suc, ◌+◌, ◌-◌, ◌*◌, ◌/◌, ◌%◌, Bool, false, ◌&&◌, Option, none, some, List, [], ◌∷◌, map,
  nat_beq, leb, if◌then◌else◌,
}
use qa_platform_learning.Common.Lists.{select, length}
use qa_platform_learning.Services.Models.Status.{ResultStatus, result_status_keyed}
use qa_platform_learning.Services.Models.Records.{Execution}
use qa_platform_learning.Services.Models.Audit.{AuditEvent}
use qa_platform_learning.Services.Defects.Model.{Defect}
use qa_platform_learning.Services.Suites.Operations.{visited_has}
use qa_platform_learning.Services.Quality.Figures.{count, day_length, Period, Rate, rate, counted}
use qa_platform_learning.Services.Quality.Summary.{
  selected_executions, project_defects, is_reopened,
}

-- `TrendGranularity`
pub data Granularity : Type 0 where
  day week : Granularity

-- The dates of a report and its zone's offset.
pub record Span : Type 0 where
  pub offset : ℕ
  pub date_from : ℕ
  pub date_to : ℕ

-- The bounds of `_period_bounds`.
abbrev pub period_of : Span → Period
period_of s = record {
  offset = s.offset;
  start = s.date_from * day_length;
  end = (s.date_to + 1) * day_length;
}

-- `local_date.weekday()`; the ordinal 1 is a Monday.
abbrev pub weekday : ℕ → ℕ
weekday date = (date + 6) % 7

abbrev pub bucket_of_date : Granularity → ℕ → ℕ
bucket_of_date Granularity.day date = date
bucket_of_date Granularity.week date = date - weekday date

abbrev pub local_date : (offset time : ℕ) → ℕ
local_date offset time = (time + offset) / day_length

-- `_bucket_start`
abbrev pub bucket_of_time : Granularity → (offset time : ℕ) → ℕ
bucket_of_time g offset time = bucket_of_date g (local_date offset time)

abbrev pub note_seen : List ℕ → ℕ → List ℕ
note_seen seen bucket = if visited_has seen bucket then seen else bucket ∷ seen

-- The loop of `_period_bucket_starts`, over `n` days from `cursor` on.
unfoldable pub bucket_starts : (n : ℕ) → Granularity → (cursor : ℕ) → (seen : List ℕ) → List ℕ
bucket_starts zero g cursor seen = []
bucket_starts (suc n) g cursor seen =
    let bucket = bucket_of_date g cursor in
    let rest = bucket_starts n g (suc cursor) (note_seen seen bucket) in
    if visited_has seen bucket then rest else bucket ∷ rest

-- `_period_bucket_starts`
abbrev pub period_bucket_starts : Span → Granularity → List ℕ
period_bucket_starts s g = bucket_starts (s.date_to + 1 - s.date_from) g s.date_from []

-- A time falls in a bucket; None falls in none.
abbrev pub in_bucket : Granularity → (offset bucket : ℕ) → Option ℕ → Bool
in_bucket g offset bucket none = false
in_bucket g offset bucket (some time) = nat_beq (bucket_of_time g offset time) bucket

-- `date_from <= local_date <= date_to`
abbrev pub in_span : Span → Option ℕ → Bool
in_span s none = false
in_span s (some time) =
    leb s.date_from (local_date s.offset time) && leb (local_date s.offset time) s.date_to

-- `QualityTrendPoint`
pub record TrendPoint : Type 0 where
  pub bucket_start : ℕ
  pub completed_executions : ℕ
  pub passed : ℕ
  pub failed : ℕ
  pub blocked : ℕ
  pub skipped : ℕ
  pub not_run : ℕ
  pub pass_rate : Rate
  pub defects_created : ℕ
  pub defects_resolved : ℕ
  pub defects_closed : ℕ
  pub defects_reopened : ℕ

module _ (s : Span) (g : Granularity) where
  abbrev pub bucket_executions : ℕ → List Execution → List Execution
  bucket_executions bucket xs =
      select (λ (x : Execution). in_bucket g s.offset bucket x.completed_at) xs

  -- The counter of defects by one of their times.
  abbrev pub bucket_defects : (Defect → Option ℕ) → ℕ → List Defect → ℕ
  bucket_defects time bucket ds =
      count (λ (d : Defect). in_span s (time d) && in_bucket g s.offset bucket (time d)) ds

  abbrev pub bucket_events : ℕ → List (ℕ × AuditEvent) → ℕ
  bucket_events bucket es =
      count (λ (e : ℕ × AuditEvent). in_bucket g s.offset bucket (some e.0)) es

  abbrev pub trend_point : List Execution → List Defect → List (ℕ × AuditEvent) → ℕ → TrendPoint
  trend_point executions defects events bucket =
      let own = bucket_executions bucket executions in
      let passed = counted ResultStatus.passed own in
      let failed = counted ResultStatus.failed own in
      record {
        bucket_start = bucket;
        completed_executions = length own;
        passed = passed;
        failed = failed;
        blocked = counted ResultStatus.blocked own;
        skipped = counted ResultStatus.skipped own;
        not_run = counted ResultStatus.not_run own;
        pass_rate = rate passed (passed + failed);
        defects_created = bucket_defects (λ d. some d.created_at) bucket defects;
        defects_resolved = bucket_defects (λ d. d.resolved_at) bucket defects;
        defects_closed = bucket_defects (λ d. d.closed_at) bucket defects;
        defects_reopened = bucket_events bucket events;
      }

  -- `_build_trends`, on what `report` gives it.
  unfoldable pub trends : ℕ → List Execution → List Defect → List (ℕ × AuditEvent) → List TrendPoint
  unfolding bucket_starts
  trends project_id executions defects audits =
      map
        (trend_point (selected_executions project_id (period_of s) executions)
          (project_defects project_id defects)
          (select (is_reopened project_id (period_of s)) audits))
        (period_bucket_starts s g)
