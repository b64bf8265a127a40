-- ===== src/Automation/Cron/Firing.antt =====
-- The minutes that the searches of a cron expression find (backend/app/automation/cron.py).
use qa_platform_learning.Common.Tests.{
  ℕ, zero, suc, ◌+◌, ◌-◌, ◌*◌, ◌<◌, ◌≤◌, ◌≡◌, refl, sym, ap, ◌∙◌, inl, inr, true, false, String,
  arith, ltb, Bool-cases,
}
use qa_platform_learning.Common.Result.{Result, ok, err, Result-cases}
use qa_platform_learning.Common.Time.{DateTime}
use qa_platform_learning.Automation.Errors.{Error, as_utc}
use qa_platform_learning.Automation.Cron.Expression.{Expression, Calendar, find_zone}
use qa_platform_learning.Automation.Cron.Search.{
  minute, end_of_time, minute_of, later, earlier, matches_in_zone, search, next_after,
  previous_at_or_before,
}
use mathlib.Core.Path.{subst}

pub ok-injective : {E A : Type 0} {a b : A} → ◌≡◌ {A = Result E A} (ok a) (ok b) → a ≡ b
ok-injective {a} e = ap (λ r. elim r [ ok x ↦ x | err _ ↦ a ]) e

later-step : (t u : ℕ) → later t ≡ ok u → u ≡ t + minute
later-step t u h = elim (Bool-cases (ltb (t + minute) end_of_time)) [
  | inl fits ↦ sym (ok-injective (rw fits at h))
  | inr over ↦ absurd (cc (rw over at h))
]

earlier-step : (t u : ℕ) → earlier t ≡ ok u → u + minute ≡ t
earlier-step t u h = elim (Bool-cases (ltb t minute)) [
  | inl low ↦ absurd (cc (rw low at h))
  | inr fits ↦ let e : t - minute ≡ u = ok-injective (rw fits at h) in ground arith
]

module _ {Zone : Type 0} (calendar : Calendar Zone) (e : Expression) (zone : Zone) where
  abbrev pub Fires : ℕ → Type 0
  Fires t = matches_in_zone calendar e t zone ≡ ok true

  abbrev pub Rests : ℕ → Type 0
  Rests t = matches_in_zone calendar e t zone ≡ ok false

  -- The search fires `k` minutes after `t`, and not before.
  pub record FirstFrom (n t u : ℕ) : Type 0 where
    pub k : ℕ
    pub within : k < n
    pub at : u ≡ t + k * minute
    pub fires : Fires u
    pub rests : (j : ℕ) → j < k → Rests (t + j * minute)

  -- The search fires `k` minutes before `t`, and not after.
  pub record LastUpTo (n t u : ℕ) : Type 0 where
    pub k : ℕ
    pub within : k < n
    pub at : u + k * minute ≡ t
    pub fires : Fires u
    pub rests : (j : ℕ) → j < k → Rests (t - j * minute)

  shift-Rests :
      (t u : ℕ) (k : ℕ)
      → u ≡ t + minute
      → Rests t
      → ((j : ℕ) → j < k → Rests (u + j * minute))
      → (j : ℕ) → j < suc k
      → Rests (t + j * minute)
  shift-Rests t u k step now more zero low = subst Rests (omega arith) now
  shift-Rests t u k step now more (suc j) low =
      subst Rests (omega (arith, step)) (more j (omega (arith, low)))

  -- One round of either search.
  module _ (move : ℕ → Result Error ℕ) (n t : ℕ) where
    search-Fires : Fires t → search calendar e move (suc n) t zone ≡ ok t
    unfolding search
    search-Fires h = rw (h, search) refl

    search-fails :
        (x : Error)
        → matches_in_zone calendar e t zone ≡ err x
        → search calendar e move (suc n) t zone ≡ err x
    unfolding search
    search-fails x h = rw (h, search) refl

    search-Rests :
        (u : ℕ)
        → Rests t
        → move t ≡ ok u
        → search calendar e move (suc n) t zone ≡ search calendar e move n u zone
    unfolding search
    search-Rests u h step = rw (h, search) (rw step refl)

    search-ends :
        (x : Error) → Rests t → move t ≡ err x → search calendar e move (suc n) t zone ≡ err x
    unfolding search
    search-ends x h step = rw (h, search) (rw step refl)

  search-later : (n t u : ℕ) → search calendar e later n t zone ≡ ok u → FirstFrom n t u
  unfolding search
  search-later zero t u h = absurd (cc h)
  search-later (suc n) t u h = elim (Result-cases (matches_in_zone calendar e t zone)) [
    | inr (x, bad) ↦ absurd (cc (sym (search-fails later n t x bad) ∙ h))
    | inl (b, at) ↦ elim (Bool-cases b) [
      | inl on ↦
          let fires : Fires t = at ∙ ap ok on in
          let same : t ≡ u = ok-injective (sym (search-Fires later n t fires) ∙ h) in
          record {
            k = 0;
            within = omega arith;
            at = omega (arith, same);
            fires = subst Fires same fires;
            rests = λ j low. absurd (omega (arith, low));
          }
      | inr off ↦
          let rests : Rests t = at ∙ ap ok off in
          elim (Result-cases (later t)) [
            | inr (x, bad) ↦ absurd (cc (sym (search-ends later n t x rests bad) ∙ h))
            | inl (v, step) ↦
                let found = search-later n v u (sym (search-Rests later n t v rests step) ∙ h) in
                let moved = later-step t v step in
                record {
                  k = suc found.k;
                  within = omega (arith, found.within);
                  at = omega (arith, found.at, moved);
                  fires = found.fires;
                  rests = shift-Rests t v found.k moved rests found.rests;
                }
          ]
    ]
  ]

  shift_back :
      (t u : ℕ) (k : ℕ)
      → u + minute ≡ t
      → Rests t
      → ((j : ℕ) → j < k → Rests (u - j * minute))
      → (j : ℕ) → j < suc k
      → Rests (t - j * minute)
  shift_back t u k step now more zero low = subst Rests (omega arith) now
  shift_back t u k step now more (suc j) low =
      subst Rests (omega (arith, step)) (more j (omega (arith, low)))

  search-earlier : (n t u : ℕ) → search calendar e earlier n t zone ≡ ok u → LastUpTo n t u
  unfolding search
  search-earlier zero t u h = absurd (cc h)
  search-earlier (suc n) t u h = elim (Result-cases (matches_in_zone calendar e t zone)) [
    | inr (x, bad) ↦ absurd (cc (sym (search-fails earlier n t x bad) ∙ h))
    | inl (b, at) ↦ elim (Bool-cases b) [
      | inl on ↦
          let fires : Fires t = at ∙ ap ok on in
          let same : t ≡ u = ok-injective (sym (search-Fires earlier n t fires) ∙ h) in
          record {
            k = 0;
            within = omega arith;
            at = omega (arith, same);
            fires = subst Fires same fires;
            rests = λ j low. absurd (omega (arith, low));
          }
      | inr off ↦
          let rests : Rests t = at ∙ ap ok off in
          elim (Result-cases (earlier t)) [
            | inr (x, bad) ↦ absurd (cc (sym (search-ends earlier n t x rests bad) ∙ h))
            | inl (v, step) ↦
                let found =
                  search-earlier n v u (sym (search-Rests earlier n t v rests step) ∙ h) in
                let moved = earlier-step t v step in
                record {
                  k = suc found.k;
                  within = omega (arith, found.within);
                  at = omega (arith, found.at, moved);
                  fires = found.fires;
                  rests = shift_back t v found.k moved rests found.rests;
                }
          ]
    ]
  ]

module _ {Zone : Type 0} (calendar : Calendar Zone) (e : Expression) where
  -- A time that `next_after` returns is later than the instant, on a whole minute that matches in the
  -- named zone, and no whole minute between them matches; the search took fewer minutes than its
  -- bound.
  pub next_after-FirstFrom :
      (instant : DateTime) (name : String) (n t : ℕ)
      → next_after calendar e instant name n ≡ ok t
      → (now : ℕ) × (zone : Zone) × (as_utc instant ≡ ok now)
        × (find_zone calendar name ≡ ok zone)
        × (now < t)
        × FirstFrom calendar e zone n (minute_of now + minute) t
  unfolding next_after
  next_after-FirstFrom instant name n t h = elim (Result-cases (find_zone calendar name)) [
    | inr (x, bad) ↦ absurd (cc (rw bad at h))
    | inl (zone, known) ↦ elim (Result-cases (as_utc instant)) [
      | inr (x, bad) ↦ absurd (cc (rw bad at (rw known at h)))
      | inl (now, time) ↦ elim (Result-cases (later (minute_of now))) [
        | inr (x, bad) ↦ absurd (cc (rw bad at (rw time at (rw known at h))))
        | inl (v, step) ↦
            let found =
              search-later calendar e zone n v t (rw step at (rw time at (rw known at h))) in
            let moved = later-step (minute_of now) v step in
            (
              now,
              zone,
              time,
              known,
              omega (arith, found.at, moved),
              subst (λ s. FirstFrom calendar e zone n s t) moved found,
            )
      ]
    ]
  ]

  -- A time that `previous_at_or_before` returns is not later than the instant, on a whole minute that
  -- matches in the named zone, and no later whole minute up to the instant matches.
  pub previous-LastUpTo :
      (instant : DateTime) (name : String) (n t : ℕ)
      → previous_at_or_before calendar e instant name n ≡ ok t
      → (now : ℕ) × (zone : Zone) × (as_utc instant ≡ ok now)
        × (find_zone calendar name ≡ ok zone)
        × (t ≤ now)
        × LastUpTo calendar e zone n (minute_of now) t
  unfolding previous_at_or_before
  previous-LastUpTo instant name n t h = elim (Result-cases (find_zone calendar name)) [
    | inr (x, bad) ↦ absurd (cc (rw bad at h))
    | inl (zone, known) ↦ elim (Result-cases (as_utc instant)) [
      | inr (x, bad) ↦ absurd (cc (rw bad at (rw known at h)))
      | inl (now, time) ↦
          let found =
            search-earlier calendar e zone n (minute_of now) t (rw time at (rw known at h)) in
          (now, zone, time, known, omega (arith, found.at), found)
    ]
  ]
