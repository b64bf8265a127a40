-- ===== src/Automation/Scheduler/Settled.antt =====
-- A schedule after its due times were handled (backend/app/automation/scheduler.py).
use qa_platform_learning.Common.Tests.{
  ℕ, ◌≤◌, ◌<◌, ◌≡◌, refl, sym, ap, ◌∙◌, Option, some, List, [], ◌∷◌, nat_keyed, pair_keyed,
}
use qa_platform_learning.Common.Lists.{All}
use qa_platform_learning.Common.Dict.{lookup, lookup-insert_self}
use qa_platform_learning.Common.Result.{Result, ok, err}
use qa_platform_learning.Common.Holds.{
  Holds, Holds-pure, Holds-raise, bind-find, bind-lift, bind-gets, bind-modify, bind-whatever,
}
use qa_platform_learning.Automation.Errors.{Error}
use qa_platform_learning.Automation.Scheduler.Model.{Schedule, Fire, slot_keyed}
use qa_platform_learning.Automation.Scheduler.Due.{DueUntil, collect_due-DueUntil}
use qa_platform_learning.Automation.Scheduler.Operations.{
  Scheduler, Host, last_time, ran, finish_run, fire_from, fire_at, fire_due,
}
use mathlib.Core.Path.{subst}

module _ {Q P Zone : Type 0} (host : Host Q P Zone) where
  last_time-past :
      (now t : ℕ) (ts : List ℕ) → t ≤ now → All (λ u. u ≤ now) ts → last_time host t ts ≤ now
  last_time-past now t [] h hs = h
  last_time-past now t (u ∷ us) h hs = last_time-past now u us hs.0 hs.1

  -- The schedule `id` ran up to now, and runs next after now.
  abbrev pub Advanced : ℕ → ℕ → Scheduler Q P → Type 0
  Advanced id now s =
      (x : Schedule P) × (last : ℕ) × (next : ℕ) × (lookup id s.schedules ≡ some x)
      × (x.last_run_at ≡ some last)
      × (last ≤ now)
      × (x.next_run_at ≡ some next)
      × (now < next)

  AdvancedIfOk : ℕ → ℕ → Result Error (List Fire) → Scheduler Q P → Type 0
  AdvancedIfOk id now (ok fs) s = Advanced id now s
  AdvancedIfOk id now (err e) s = Unit

  finish_run-Advanced :
      (x : Schedule P) (start room next now : ℕ) (due : List ℕ) (fs : List Fire) (s : Scheduler Q P)
      → start ≤ now
      → DueUntil now room start due next
      → Holds (AdvancedIfOk x.id now) (finish_run host x due next now fs) s
  unfolding AdvancedIfOk
  finish_run-Advanced x start room next now [] fs s low d = Holds-raise _ s tt
  finish_run-Advanced x start room next now (t ∷ ts) fs s low d = bind-modify _ _ s (
      Holds-pure _ _ (
        ran host x (last_time host t ts) next now,
        last_time host t ts,
        next,
        lookup-insert_self x.id (ran host x (last_time host t ts) next now) s.schedules,
        refl,
        last_time-past now t ts d.past.0 d.past.1,
        refl,
        d.future,
      ))

  fire_at-Advanced :
      (x : Schedule P) (start now : ℕ) (s : Scheduler Q P)
      → start ≤ now
      → Holds (AdvancedIfOk x.id now) (fire_at host x (some start) now) s
  unfolding fire_at fire_from AdvancedIfOk
  fire_at-Advanced x start now s low =
      bind-find _ _ _ s (λ _. tt)
        λ e _. bind-gets _ _ s (
          bind-lift _ _ s (λ _ _. tt)
            λ due collected.
              bind-lift _ _ s (λ _ _. tt)
                λ times _.
                  bind-whatever _ _ s (λ _ _. tt)
                    λ gs s'.
                      bind-whatever _ _ s' (λ _ _. tt)
                        λ fs s''. finish_run-Advanced x start s.max_due due.1 now due.0 _ s'' low (
                          collect_due-DueUntil host.calendar e x.timezone now s.max_due start due.1
                            due.0 collected))

  -- Handling the due times of a due schedule, where it returns, leaves a schedule whose last run is
  -- not later than now and whose next run is later than now: the same tick has no more to do on it.
  pub fire_due_advances :
      (x : Schedule P) (start now : ℕ) (s s' : Scheduler Q P) (fs : List Fire)
      → x.next_run_at ≡ some start
      → start ≤ now
      → fire_due host x now s ≡ (ok fs, s')
      → Advanced x.id now s'
  unfolding fire_due AdvancedIfOk
  fire_due_advances x start now s s' fs due low h =
      subst (λ (p : Result Error (List Fire) × Scheduler Q P). AdvancedIfOk x.id now p.0 p.1)
        (ap (λ (o : Option ℕ). fire_at host x o now s) (sym due) ∙ h)
        (fire_at-Advanced x start now s low).at
