-- ===== src/Services/Quality/Figures.antt =====
-- The figures of `QualityService.report`, backend/app/services/quality.py, as functions of the lists that it
-- reads. A date is its proleptic ordinal, an instant counts microseconds from the start of day 0 in UTC, and a
-- local time adds the zone's offset. Percentages, which are rounded floats, are left out.
use qa_platform_learning.Common.Tests.{
  ℕ, suc, ◌+◌, ◌-◌, ◌*◌, Bool, true, false, not, ◌&&◌, ◌||◌, String, Option, none, some, List, [],
  ◌∷◌, ◌++◌, map, nat_beq, ltb, leb, if◌then◌else◌, text_keyed, ◌==◌,
}
use qa_platform_learning.Common.Lists.{any, select}
use qa_platform_learning.Common.Result.{Result, ok, err}
use qa_platform_learning.Services.Errors.{ServiceError, bad_request}
use qa_platform_learning.Services.Models.Status.{
  ResultStatus, case_status_keyed, case_type_keyed, execution_status_keyed, result_status_keyed,
}
use qa_platform_learning.Services.Models.Records.{Execution, CaseResult}
use qa_platform_learning.Services.Models.Audit.{AuditEvent, Change, status_value, status_changed}
use qa_platform_learning.Services.Defects.Model.{
  DefectStatus, Severity, Defect, open_, in_progress, reopened, same_status, severity_rank,
}
use qa_platform_learning.Services.Suites.Operations.{visited_has}

-- How many elements pass a test.
abbrev pub count : {A : Type 0} → (A → Bool) → List A → ℕ
count p [] = 0
count p (x ∷ xs) = let rest = count p xs in if p x then suc rest else rest

abbrev pub day_length : ℕ
day_length = 86400000000

-- `_SUPPORTED_TIMEZONES`, by the offsets to UTC, and `_timezone_for`.
unfoldable pub timezone_for : String → Result ServiceError ℕ
timezone_for name =
    if name == "UTC"
    then ok 0
    else if name == "Asia/Shanghai"
    then ok (8 * 3600000000)
    else err bad_request

-- `_period_bounds`, as local times; the end is not included.
unfoldable pub period_bounds : (date_from date_to : ℕ) → Result ServiceError (ℕ × ℕ)
period_bounds date_from date_to =
    if ltb date_to date_from
    then err bad_request
    else if ltb 366 (date_to - date_from + 1)
    then err bad_request
    else ok (date_from * day_length, (date_to + 1) * day_length)

-- A period: the offset to UTC and the bounds as local times.
pub record Period : Type 0 where
  pub offset : ℕ
  pub start : ℕ
  pub end : ℕ

-- `_within`
abbrev pub within : Period → Option ℕ → Bool
within p none = false
within p (some t) = leb p.start (t + p.offset) && ltb (t + p.offset) p.end

-- `CountAndRate`
pub record Rate : Type 0 where
  pub numerator : ℕ
  pub denominator : ℕ

abbrev pub rate : ℕ → ℕ → Rate
rate n d = record { numerator = n; denominator = d }

abbrev pub results_of : List Execution → List CaseResult
results_of [] = []
results_of (x ∷ xs) = x.results ++ results_of xs

-- `counts[status]` of `_execution_facts`
abbrev pub counted : ResultStatus → List Execution → ℕ
counted status xs = count (λ (r : CaseResult). r.status == status) (results_of xs)

-- The set of reached cases of `_execution_facts`.
abbrev pub reached_case_ids : List Execution → List ℕ
reached_case_ids xs =
    map (λ (r : CaseResult). r.case_id)
      (select (λ (r : CaseResult). not (r.status == ResultStatus.not_run)) (results_of xs))

abbrev pub same_pair : ℕ × ℕ → ℕ × ℕ → Bool
same_pair (a, b) (c, d) = nat_beq a c && nat_beq b d

-- An element into a set.
abbrev pub add_pair : ℕ × ℕ → List (ℕ × ℕ) → List (ℕ × ℕ)
add_pair p ps = if any (λ q. same_pair q p) ps then ps else p ∷ ps

abbrev pub is_failure : CaseResult → Bool
is_failure r = r.status == ResultStatus.failed || r.status == ResultStatus.blocked

abbrev pub add_failures : ℕ → List CaseResult → List (ℕ × ℕ) → List (ℕ × ℕ)
add_failures id [] ps = ps
add_failures id (r ∷ rs) ps =
    let rest = add_failures id rs ps in if is_failure r then add_pair (id, r.case_id) rest else rest

-- The set of failure pairs of `_execution_facts`.
abbrev pub failure_pairs : List Execution → List (ℕ × ℕ)
failure_pairs [] = []
failure_pairs (x ∷ xs) = add_failures x.id x.results (failure_pairs xs)

abbrev pub pair_of : Defect → Option (ℕ × ℕ)
pair_of d = elim d.execution_id [
  | none ↦ none
  | some x ↦ elim d.case_id [ none ↦ none | some c ↦ some (x, c) ]
]

abbrev pub link : List (ℕ × ℕ) → Option (ℕ × ℕ) → List (ℕ × ℕ) → List (ℕ × ℕ)
link pairs none ps = ps
link pairs (some p) ps = if any (λ q. same_pair q p) pairs then add_pair p ps else ps

-- `linked_failure_pairs`
abbrev pub linked_pairs : List (ℕ × ℕ) → List Defect → List (ℕ × ℕ)
linked_pairs pairs [] = []
linked_pairs pairs (d ∷ ds) = link pairs (pair_of d) (linked_pairs pairs ds)

-- `reached_case_ids & active_case_ids`
abbrev pub reached_active : List ℕ → List ℕ → List ℕ
reached_active reached [] = []
reached_active reached (i ∷ ids) =
    let rest = reached_active reached ids in
    if visited_has reached i && not (visited_has rest i) then i ∷ rest else rest

abbrev is_reopening : Change → Bool
is_reopening c = elim c.after [ status_value s ↦ same_status s reopened | _ ↦ false ]

abbrev status_change_reopens : List Change → Bool
status_change_reopens [] = false
status_change_reopens (c ∷ cs) =
    let rest = status_change_reopens cs in if c.field == "status" then is_reopening c else rest

-- `_is_reopen_event`
unfoldable pub is_reopen_event : AuditEvent → Bool
is_reopen_event e =
    e.entity_type == "defect"
    && elim e.action [ status_changed ↦ status_change_reopens e.changes | _ ↦ false ]

abbrev pub is_unresolved : DefectStatus → Bool
is_unresolved open_ = true
is_unresolved in_progress = true
is_unresolved reopened = true
is_unresolved _ = false

-- Blocker and critical.
abbrev pub is_high : Severity → Bool
is_high s = ltb (severity_rank s) 2
