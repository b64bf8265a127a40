-- ===== src/Automation/Scheduler/Kept.antt =====
-- The record of fires that a scheduler keeps (backend/app/automation/scheduler.py).
use qa_platform_learning.Common.Tests.{
  ℕ, ◌+◌, ◌≡◌, ◌≢◌, sym, ap, ◌∙◌, inl, inr, false, not, ◌&&◌, Option, none, some, List, [], ◌∷◌,
  is_some, nat_keyed, pair_keyed, Bool-cases,
}
use qa_platform_learning.Common.Lists.{is_empty}
use qa_platform_learning.Common.Dict.{Dict, lookup, insert, contains, lookup-insert_ne}
use qa_platform_learning.Common.Result.{Result, Action, ◌>>=◌}
use qa_platform_learning.Common.Holds.{
  Holds, Holds-pure, Holds-raise, bind-any, bind-find, bind-lift, bind-gets, bind-modify, Then,
  Then-both, Stays, bind-Stays,
}
use qa_platform_learning.Common.Time.{DateTime}
use qa_platform_learning.Automation.Errors.{Error}
use qa_platform_learning.Automation.Scheduler.Model.{
  FireStatus, skipped_misfire, skipped_overlap, is_forbid, is_replace, Schedule, Fire, Slot,
  cron_slot, slot_keyed,
}
use qa_platform_learning.Automation.Scheduler.Operations.{
  Scheduler, Host, Call, on_queue, draw, record_fire, record_skipped, cancel_all, cancel_replaced,
  submit, enqueue_fire, run_or_skip, fire_one, fire_selected, finish_run, fire_from, fire_at,
  fire_due, fire_all, tick,
}

module _ {Q P Zone : Type 0} (host : Host Q P Zone) where
  -- A call of the queue changes nothing of the scheduler but the queue.
  pub bind-queue :
      {A B : Type 0} {Post : Result Error B → Scheduler Q P → Type 0} (f : Action Q Error A)
      (k : A → Call host B) (s : Scheduler Q P)
      → ((r : Result Error A) (q : Q) → Then Post k r (record s { queue = q }))
      → Holds Post (on_queue host f >>= k) s
  unfolding on_queue
  bind-queue f k s h =
      bind-any (on_queue host f) k s (record { at = h (f s.queue).0 (f s.queue).1 })

  cancel_all-Stays :
      (I : Scheduler Q P → Type 0)
      → ((q : Q) (s : Scheduler Q P) → I s → I (record s { queue = q }))
      → (ts : List ℕ) (now : ℕ) (s : Scheduler Q P) → I s
      → Holds (Stays I) (cancel_all host ts now) s
  unfolding cancel_all
  cancel_all-Stays I queue [] now s h = Holds-pure _ s h
  cancel_all-Stays I queue (t ∷ ts) now s h = bind-queue _ _ s λ r q.
      Then-both {Post = Stays I} _ r (record s { queue = q }) (λ _. queue q s h)
        λ _. cancel_all-Stays I queue ts now (record s { queue = q }) (queue q s h)

  draw-Stays :
      (I : Scheduler Q P → Type 0) (s : Scheduler Q P)
      → I (record s { drawn = s.drawn + 1 })
      → Holds (Stays I) (draw host) s
  unfolding draw
  draw-Stays I s h = record { at = h }

  module _ (key : ℕ × Slot) (f : Fire) where
    -- The fire `f` stands under its key.
    abbrev pub Recorded : Scheduler Q P → Type 0
    Recorded s = lookup key s.fires ≡ some f

    -- And another key is free.
    abbrev Open : ℕ × Slot → Scheduler Q P → Type 0
    Open k s = Recorded s × (contains k s.fires ≡ false)

    -- A new fire goes under a key that was free.
    beside :
        (k : ℕ × Slot) (g : Fire) (fs : Dict (ℕ × Slot) Fire)
        → lookup key fs ≡ some f
        → contains k fs ≡ false
        → lookup key (insert k g fs) ≡ some f
    beside k g fs h free = lookup-insert_ne k key g fs other ∙ h
      where
        other : k ≢ key
        other e = absurd (cc (sym free ∙ ap (λ (j : ℕ × Slot). contains j fs) e ∙ ap is_some h))

    record_fire-Recorded :
        (id at : ℕ) (status : FireStatus) (now : ℕ) (s : Scheduler Q P)
        → Recorded s
        → Holds (Stays Recorded) (record_fire host id at status now) s
    unfolding record_fire
    record_fire-Recorded id at status now s h =
        elim (Bool-cases (contains (id, cron_slot at) s.fires)) [
          | inl there ↦ record { at = rw there h }
          | inr free ↦ record { at = rw free (beside (id, cron_slot at) _ s.fires h free) }
        ]

    record_skipped-Recorded :
        (id : ℕ) (ts : List ℕ) (now : ℕ) (s : Scheduler Q P)
        → Recorded s
        → Holds (Stays Recorded) (record_skipped host id ts now) s
    unfolding record_skipped
    record_skipped-Recorded id [] now s h = Holds-pure _ s h
    record_skipped-Recorded id (t ∷ ts) now s h =
        bind-Stays _ _ s (record_fire-Recorded id t skipped_misfire now s h) λ g s' h'.
          bind-Stays _ _ s' (record_skipped-Recorded id ts now s' h')
            λ gs s'' h''. Holds-pure _ s'' h''

    submit-Recorded :
        (x : Schedule P) (at now : ℕ) (s : Scheduler Q P)
        → Open (x.id, cron_slot at) s
        → Holds (Stays Recorded) (submit host x at now) s
    unfolding submit
    submit-Recorded x at now s (h, free) = bind-queue _ _ s λ r q.
        Then-both {Post = Stays Recorded} _ r (record s { queue = q }) (λ _. h)
          λ task_id. bind-any _ _ _ (record {
            at = bind-modify _ _ _ (Holds-pure _ _ (beside (x.id, cron_slot at) _ s.fires h free));
          })

    cancel_replaced-Open :
        (k : ℕ × Slot) (x : Schedule P) (running : List ℕ) (now : ℕ) (s : Scheduler Q P)
        → Open k s
        → Holds (Stays (Open k)) (cancel_replaced host x running now) s
    unfolding cancel_replaced
    cancel_replaced-Open k x running now s h = elim (Bool-cases (is_replace x.overlap_policy)) [
      | inl replaces ↦ rw replaces (cancel_all-Stays (Open k) (λ q s' j. j) running now s h)
      | inr keeps ↦ rw keeps (Holds-pure _ s h)
    ]

    run_or_skip-Recorded :
        (x : Schedule P) (at now : ℕ) (running : List ℕ) (s : Scheduler Q P)
        → Open (x.id, cron_slot at) s
        → Holds (Stays Recorded) (run_or_skip host x at now running) s
    unfolding run_or_skip enqueue_fire
    run_or_skip-Recorded x at now running s h =
        elim (Bool-cases (is_forbid x.overlap_policy && not (is_empty running))) [
          | inl skips ↦ rw skips (record_fire-Recorded x.id at skipped_overlap now s h.0)
          | inr runs ↦ rw runs (
              bind-any (cancel_replaced host x running now) (λ _. submit host x at now) s
                (record {
                  at =
                      let kept = (cancel_replaced-Open (x.id, cron_slot at) x running now s h).at in
                      Then-both {Post = Stays Recorded} _ (cancel_replaced host x running now s).0
                        (cancel_replaced host x running now s).1 (λ _. kept.0)
                        λ _. submit-Recorded x at now _ kept;
                }))
        ]

    fire_one-Recorded :
        (x : Schedule P) (at now : ℕ) (s : Scheduler Q P)
        → Recorded s
        → Holds (Stays Recorded) (fire_one host x at now) s
    unfolding fire_one
    fire_one-Recorded x at now s h = elim (Bool-cases (contains (x.id, cron_slot at) s.fires)) [
      | inl there ↦ record { at = rw there h }
      | inr free ↦ record {
        at =
            rw free
              (bind-queue {Post = Stays Recorded} (host.port.active_for_schedule x.id)
                (run_or_skip host x at now) s
                λ r q.
                  Then-both {Post = Stays Recorded} _ r (record s { queue = q }) (λ _. h)
                    λ running.
                      run_or_skip-Recorded x at now running (record s { queue = q }) (h, free)).at;
      }
    ]

    fire_selected-Recorded :
        (x : Schedule P) (ts : List ℕ) (now : ℕ) (s : Scheduler Q P)
        → Recorded s
        → Holds (Stays Recorded) (fire_selected host x ts now) s
    unfolding fire_selected
    fire_selected-Recorded x [] now s h = Holds-pure _ s h
    fire_selected-Recorded x (t ∷ ts) now s h =
        bind-Stays _ _ s (fire_one-Recorded x t now s h) λ g s' h'.
          bind-Stays _ _ s' (fire_selected-Recorded x ts now s' h')
            λ gs s'' h''. Holds-pure _ s'' h''

    finish_run-Recorded :
        (x : Schedule P) (due : List ℕ) (next now : ℕ) (fs : List Fire) (s : Scheduler Q P)
        → Recorded s
        → Holds (Stays Recorded) (finish_run host x due next now fs) s
    finish_run-Recorded x [] next now fs s h = Holds-raise _ s h
    finish_run-Recorded x (t ∷ ts) next now fs s h = bind-modify _ _ s (Holds-pure _ _ h)

    fire_at-Recorded :
        (x : Schedule P) (o : Option ℕ) (now : ℕ) (s : Scheduler Q P)
        → Recorded s
        → Holds (Stays Recorded) (fire_at host x o now) s
    unfolding fire_at fire_from
    fire_at-Recorded x none now s h = bind-find _ _ _ s (λ _. h) λ e _. Holds-pure _ s h
    fire_at-Recorded x (some start) now s h =
        bind-find _ _ _ s (λ _. h)
          λ e _. bind-gets _ _ s (
            bind-lift _ _ s (λ _ _. h)
              λ due _.
                bind-lift _ _ s (λ _ _. h)
                  λ times _.
                    bind-Stays _ _ s (record_skipped-Recorded x.id times.1 now s h) λ gs s' h'.
                      bind-Stays _ _ s' (fire_selected-Recorded x times.0 now s' h')
                        λ fs s'' h''. finish_run-Recorded x due.0 due.1 now _ s'' h'')

    fire_all-Recorded :
        (xs : List (Schedule P)) (now : ℕ) (s : Scheduler Q P)
        → Recorded s
        → Holds (Stays Recorded) (fire_all host xs now) s
    unfolding fire_all fire_due
    fire_all-Recorded [] now s h = Holds-pure _ s h
    fire_all-Recorded (x ∷ xs) now s h =
        bind-Stays _ _ s (fire_at-Recorded x x.next_run_at now s h) λ fs s' h'.
          bind-Stays _ _ s' (fire_all-Recorded xs now s' h') λ rest s'' h''. Holds-pure _ s'' h''

    -- A fire once recorded is there, unchanged, after any tick, whatever the queue does and whether the
    -- tick returns or raises.
    pub tick_keeps_fires :
        (now : Option DateTime) (clock : ℕ) (s : Scheduler Q P)
        → lookup key s.fires ≡ some f
        → lookup key (tick host now clock s).1.fires ≡ some f
    unfolding tick
    tick_keeps_fires now clock s h =
        (bind-lift {Post = Stays Recorded} _ _ s (λ _ _. h)
          λ current _. bind-gets _ _ s (fire_all-Recorded _ current s h)).at
