-- ===== src/Automation/Scheduler/Due.antt =====
-- The due times of a schedule, and their division by the misfire policy
-- (backend/app/automation/scheduler.py).
use qa_platform_learning.Common.Tests.{
  ℕ, zero, suc, ◌+◌, ◌-◌, ◌≤◌, ◌<◌, ◌≡◌, refl, sym, ap, ◌∙◌, inl, inr, true, false, String, List,
  [], ◌∷◌, ◌++◌, arith, ltb, leb, nat_beq, Bool-cases,
}
use qa_platform_learning.Common.Lists.{length, select, All, take-append-drop, length-drop}
use qa_platform_learning.Common.Result.{Result, ok, err, Result-cases}
use qa_platform_learning.Common.Time.{aware, seconds}
use qa_platform_learning.Automation.Errors.{Error, validation}
use qa_platform_learning.Automation.Cron.Expression.{Expression, Calendar}
use qa_platform_learning.Automation.Cron.Search.{next_after, search_minutes}
use qa_platform_learning.Automation.Cron.Firing.{ok-injective, next_after-FirstFrom}
use qa_platform_learning.Automation.Scheduler.Model.{
  MisfirePolicy, skip, fire_once, catch_up_limited, Schedule,
}
use qa_platform_learning.Automation.Scheduler.Policy.{
  last_of, all_but, since, by_policy, apply_misfire_policy, then_due, collect_due,
}
use mathlib.Core.Path.{subst}

-- Times that rise strictly, from `low` on.
abbrev pub Rising : ℕ → List ℕ → Type 0
Rising low [] = Unit
Rising low (t ∷ ts) = (low ≤ t) × Rising (suc t) ts

-- What the collection of due times from `cursor` returns.
pub record DueUntil (now room cursor : ℕ) (due : List ℕ) (next : ℕ) : Type 0 where
  pub rising : Rising cursor due
  pub past : All (λ t. t ≤ now) due
  pub future : now < next
  pub bounded : length due ≤ room
  pub starts : cursor ≤ now → (ts : List ℕ) × (due ≡ cursor ∷ ts)

Rising-low : (low lower : ℕ) (ts : List ℕ) → lower ≤ low → Rising low ts → Rising lower ts
Rising-low low lower [] h r = tt
Rising-low low lower (t ∷ ts) h r = (omega (arith, h, r.0), r.1)

module _ {Zone : Type 0} (calendar : Calendar Zone) (e : Expression) (timezone : String)
    (now : ℕ) where
  step_forward :
      (cursor t : ℕ)
      → next_after calendar e (aware cursor) timezone search_minutes ≡ ok t
      → cursor < t
  step_forward cursor t h =
      let (start, zone, time, known, after, found) =
        next_after-FirstFrom calendar e (aware cursor) timezone search_minutes t h in
      let same : cursor ≡ start = ok-injective time in omega (arith, same, after)

  -- One round of the collection.
  module _ (room cursor : ℕ) (due : leb cursor now ≡ true) where
    collect_due-fails :
        (x : Error)
        → next_after calendar e (aware cursor) timezone search_minutes ≡ err x
        → collect_due calendar e timezone now (suc room) cursor ≡ err x
    unfolding collect_due
    collect_due-fails x h = rw (due, collect_due) (rw h refl)

    collect_due-moves :
        (t : ℕ)
        → next_after calendar e (aware cursor) timezone search_minutes ≡ ok t
        → collect_due calendar e timezone now (suc room) cursor
          ≡ then_due calendar e timezone now cursor (collect_due calendar e timezone now room t)
    unfolding collect_due
    collect_due-moves t h = rw (due, collect_due) (rw h refl)

  collect_due-stops :
      (room cursor : ℕ)
      → leb cursor now ≡ false
      → collect_due calendar e timezone now room cursor ≡ ok ([], cursor)
  unfolding collect_due
  collect_due-stops zero cursor h = rw (h, collect_due) refl
  collect_due-stops (suc room) cursor h = rw (h, collect_due) refl

  collect_due-full :
      (cursor : ℕ)
      → leb cursor now ≡ true
      → collect_due calendar e timezone now zero cursor ≡ err validation
  unfolding collect_due
  collect_due-full cursor h = rw (h, collect_due) refl

  none_due :
      (room cursor next : ℕ) (due : List ℕ)
      → leb cursor now ≡ false
      → ◌≡◌ {A = Result Error (List ℕ × ℕ)} (ok ([], cursor)) (ok (due, next))
      → DueUntil now room cursor due next
  none_due room cursor next due late h =
      let same : ◌≡◌ {A = List ℕ × ℕ} ([], cursor) (due, next) = ok-injective h in
      subst (λ (p : List ℕ × ℕ). DueUntil now room cursor p.0 p.1) same
        (record {
          rising = tt;
          past = tt;
          future = ground arith;
          bounded = omega arith;
          starts = λ low. absurd (ground arith);
        })

  one_more :
      (room cursor t next : ℕ) (due : List ℕ) (p : List ℕ × ℕ)
      → leb cursor now ≡ true
      → cursor < t
      → DueUntil now room t p.0 p.1
      → ◌≡◌ {A = Result Error (List ℕ × ℕ)} (ok (cursor ∷ p.0, p.1)) (ok (due, next))
      → DueUntil now (suc room) cursor due next
  one_more room cursor t next due (ts, u) early forward d h =
      subst (λ (q : List ℕ × ℕ). DueUntil now (suc room) cursor q.0 q.1) (ok-injective h)
        (record {
          rising = (omega arith, Rising-low t (suc cursor) ts (omega (arith, forward)) d.rising);
          past = (ground arith, d.past);
          future = d.future;
          bounded = omega (arith, d.bounded);
          starts = λ low. (ts, refl);
        })

  -- The times that are collected rise strictly from the first one, none of them is later than now,
  -- the next time is later than now, and there are no more of them than there is room for. The first
  -- one is the schedule's own time where that is not later than now.
  pub collect_due-DueUntil :
      (room cursor next : ℕ) (due : List ℕ)
      → collect_due calendar e timezone now room cursor ≡ ok (due, next)
      → DueUntil now room cursor due next
  collect_due-DueUntil zero cursor next due h = elim (Bool-cases (leb cursor now)) [
    | inr late ↦ none_due zero cursor next due late (sym (collect_due-stops zero cursor late) ∙ h)
    | inl early ↦ absurd (cc (sym (collect_due-full cursor early) ∙ h))
  ]
  collect_due-DueUntil (suc room) cursor next due h = elim (Bool-cases (leb cursor now)) [
    | inr late ↦
        none_due (suc room) cursor next due late
          (sym (collect_due-stops (suc room) cursor late) ∙ h)
    | inl early ↦
        elim (Result-cases (next_after calendar e (aware cursor) timezone search_minutes)) [
          | inr (x, bad) ↦ absurd (cc (sym (collect_due-fails room cursor early x bad) ∙ h))
          | inl (t, step) ↦
              let h' = sym (collect_due-moves room cursor early t step) ∙ h in
              elim (Result-cases (collect_due calendar e timezone now room t)) [
                | inr (x, bad) ↦
                    absurd (cc (sym (ap (then_due calendar e timezone now cursor) bad) ∙ h'))
                | inl (p, good) ↦
                    one_more room cursor t next due p early (step_forward cursor t step)
                      (collect_due-DueUntil room t p.1 p.0 good)
                      (sym (ap (then_due calendar e timezone now cursor) good) ∙ h')
              ]
        ]
  ]

-- What the policy chooses of the due times.
abbrev pub Chosen : MisfirePolicy → (grace limit now : ℕ) → (run skipped : List ℕ) → Type 0
Chosen fire_once grace limit now run skipped = length run ≡ 1
Chosen catch_up_limited grace limit now run skipped = length run ≤ limit
Chosen skip grace limit now run skipped =
    All (λ t. now ≤ t + seconds grace) run × All (λ t. t + seconds grace < now) skipped

-- The last times of a list and the others make up the list.
parts : (n : ℕ) (xs : List ℕ) → all_but n xs ++ last_of n xs ≡ xs
parts n xs = elim (Bool-cases (nat_beq n 0)) [
  | inl zero_last ↦ rw zero_last refl
  | inr some_last ↦ rw some_last (take-append-drop (length xs - n) xs)
]

late_Rising : (cut low : ℕ) (ts : List ℕ) → cut ≤ low → Rising low ts → (since cut ts ≡ (ts, []))
late_Rising cut low [] h r = refl
late_Rising cut low (t ∷ ts) h r =
    rw (late_head, early_head)
      (ap (λ (p : List ℕ × List ℕ). (t ∷ p.0, p.1))
        (late_Rising cut (suc t) ts (omega (arith, h, r.0)) r.1))
  where
    late_head : leb cut t ≡ true
    late_head = ground (arith, h, r.0)

    early_head : ltb t cut ≡ false
    early_head = ground (arith, h, r.0)

since-parts :
    (cut low : ℕ) (ts : List ℕ) → Rising low ts → (since cut ts).1 ++ (since cut ts).0 ≡ ts
since-parts cut low [] r = refl
since-parts cut low (t ∷ ts) r = elim (Bool-cases (ltb t cut)) [
  | inl early ↦
      let late : leb cut t ≡ false = ground arith in
      rw (early, late) (ap (λ (xs : List ℕ). t ∷ xs) (since-parts cut (suc t) ts r.1))
  | inr late ↦
      let upto : cut ≤ t = ground arith in
      ap (λ (p : List ℕ × List ℕ). p.1 ++ p.0) (late_Rising cut t (t ∷ ts) upto (omega arith, r.1))
]

select_late :
    (now grace : ℕ) (ts : List ℕ)
    → All (λ t. now ≤ t + grace) (select (λ t. leb (now - grace) t) ts)
select_late now grace [] = tt
select_late now grace (t ∷ ts) = elim (Bool-cases (leb (now - grace) t)) [
  | inl late ↦ rw late (ground arith, select_late now grace ts)
  | inr early ↦ rw early (select_late now grace ts)
]

select_early :
    (now grace : ℕ) (ts : List ℕ)
    → All (λ t. t + grace < now) (select (λ t. ltb t (now - grace)) ts)
select_early now grace [] = tt
select_early now grace (t ∷ ts) = elim (Bool-cases (ltb t (now - grace))) [
  | inl early ↦ rw early (ground arith, select_early now grace ts)
  | inr late ↦ rw late (select_early now grace ts)
]

length-last_of : (n : ℕ) (xs : List ℕ) → 1 ≤ n → n ≤ length xs → length (last_of n xs) ≡ n
length-last_of n xs h fits =
    let some_last : nat_beq n 0 ≡ false = ground (arith, h) in
    rw some_last (omega (arith, length-drop (length xs - n) xs, fits))

last_of-bounded : (n : ℕ) (xs : List ℕ) → 1 ≤ n → length (last_of n xs) ≤ n
last_of-bounded n xs h =
    let some_last : nat_beq n 0 ≡ false = ground (arith, h) in
    rw some_last (omega (arith, length-drop (length xs - n) xs))

abbrev Divides : MisfirePolicy → (grace limit now : ℕ) → List ℕ → List ℕ × List ℕ → Type 0
Divides policy grace limit now due (run, skipped) =
    (skipped ++ run ≡ due) × Chosen policy grace limit now run skipped

by_policy-Divides :
    (policy : MisfirePolicy) (grace limit now low t : ℕ) (ts : List ℕ) (r : List ℕ × List ℕ)
    → Rising low (t ∷ ts)
    → 1 ≤ limit
    → by_policy policy grace limit (t ∷ ts) now ≡ ok r
    → Divides policy grace limit now (t ∷ ts) r
unfolding by_policy
by_policy-Divides fire_once grace limit now low t ts r rises limited h =
    subst (Divides fire_once grace limit now (t ∷ ts)) (ok-injective h)
      (parts 1 (t ∷ ts), length-last_of 1 (t ∷ ts) (omega arith) (omega arith))
by_policy-Divides catch_up_limited grace limit now low t ts r rises limited h =
    subst (Divides catch_up_limited grace limit now (t ∷ ts)) (ok-injective h)
      (parts limit (t ∷ ts), last_of-bounded limit (t ∷ ts) limited)
by_policy-Divides skip grace limit now low t ts r rises limited h =
    elim (Bool-cases (ltb now (seconds grace))) [
      | inl under ↦ absurd (cc (rw under at h))
      | inr fits ↦ subst (Divides skip grace limit now (t ∷ ts)) (ok-injective (rw fits at h)) (
        since-parts (now - seconds grace) low (t ∷ ts) rises,
        (select_late now (seconds grace) (t ∷ ts), select_early now (seconds grace) (t ∷ ts)),
      )
    ]

-- A misfire policy divides due times that rise into those that are skipped and, after them, those
-- that run: none is lost, doubled or reordered. FIRE_ONCE runs exactly the last one,
-- CATCH_UP_LIMITED runs no more than its limit, and SKIP runs those within the grace period and
-- skips those before it.
pub misfire_divides :
    {P : Type 0} (s : Schedule P) (now low t : ℕ) (ts run skipped : List ℕ)
    → Rising low (t ∷ ts)
    → 1 ≤ s.catch_up_limit
    → apply_misfire_policy s (t ∷ ts) now ≡ ok (run, skipped)
    → (skipped ++ run ≡ t ∷ ts)
      × Chosen s.misfire_policy s.misfire_grace_seconds s.catch_up_limit now run skipped
unfolding apply_misfire_policy
misfire_divides s now low t ts run skipped rises limited h =
    by_policy-Divides s.misfire_policy s.misfire_grace_seconds s.catch_up_limit now low t ts
      (run, skipped) rises limited h
