-- ===== src/Automation/Scheduler/Operations.antt =====
-- `InMemoryScheduler`, backend/app/automation/scheduler.py. A call runs under the scheduler's lock, so
-- it is one step; what was written before a raise stays. The queue is any that keeps to the port.
use qa_platform_learning.Common.Tests.{
  ℕ, ◌+◌, Bool, true, not, ◌&&◌, ◌||◌, String, Option, none, some, List, [], ◌∷◌, ◌++◌, ltb, leb,
  nat_beq, is_some, if◌then◌else◌, nat_keyed, pair_keyed,
}
use qa_platform_learning.Common.Lists.{select, is_empty}
use qa_platform_learning.Common.Dict.{Dict, values, lookup, insert, contains}
use qa_platform_learning.Common.Result.{
  ok, Action, pure, raise, gets, lift, find, raise_if, modify, ◌>>=◌, ◌>>◌,
}
use qa_platform_learning.Common.Time.{DateTime, aware}
use qa_platform_learning.Automation.Errors.{
  Error, not_found, conflict, key_error, index_error, resolve,
}
use qa_platform_learning.Automation.Cron.Text.{Unicode}
use qa_platform_learning.Automation.Cron.Expression.{Expression, Calendar, parse}
use qa_platform_learning.Automation.Cron.Search.{next_after, search_minutes}
use qa_platform_learning.Automation.Scheduler.Model.{
  FireStatus, enqueued, skipped_misfire, skipped_overlap, is_forbid, is_replace, Schedule, Fire,
  Slot, cron_slot, manual_slot, slot_keyed, Order, Port,
}
use qa_platform_learning.Automation.Scheduler.Policy.{apply_misfire_policy, collect_due}

-- `drawn` counts the ids that were drawn from `uuid4`.
pub record Scheduler (Q P : Type 0) : Type 0 where
  pub queue : Q
  pub schedules : Dict ℕ (Schedule P)
  pub expressions : Dict ℕ Expression
  pub fires : Dict (ℕ × Slot) Fire
  pub max_due : ℕ
  pub drawn : ℕ

-- What the scheduler is given: the queue, the time zones and characters, `uuid4`, and the texts of
-- the idempotency keys of a cron fire and of a manual one.
pub record Host (Q P Zone : Type 0) : Type 0 where
  pub port : Port Q P
  pub calendar : Calendar Zone
  pub unicode : Unicode
  pub uuid : ℕ → ℕ
  pub cron_key : ℕ → ℕ → String
  pub manual_key : ℕ → ℕ → String

module _ {Q P Zone : Type 0} (host : Host Q P Zone) where
  abbrev pub Call : Type 0 → Type 0
  Call A = Action (Scheduler Q P) Error A

  -- A call of the queue.
  unfoldable pub on_queue : {A : Type 0} → Action Q Error A → Call A
  on_queue f s = let (r, q) = f s.queue in (r, record s { queue = q })

  unfoldable pub draw : Call ℕ
  draw s = (ok (host.uuid s.drawn), record s { drawn = s.drawn + 1 })

  abbrev pub put_schedule : Schedule P → Scheduler Q P → Scheduler Q P
  put_schedule x s = record s { schedules = insert x.id x s.schedules }

  abbrev pub put_fire : Slot → Fire → Scheduler Q P → Scheduler Q P
  put_fire slot f s = record s { fires = insert (f.schedule_id, slot) f s.fires }

  -- `_require`
  abbrev pub require_schedule : ℕ → Call (Schedule P)
  require_schedule id = find (λ s. lookup id s.schedules) not_found

  -- `add`; `given` is the next run that the caller's schedule names.
  unfoldable pub add_schedule :
      Schedule P → (given now : Option DateTime) → (clock : ℕ) → Call (Schedule P)
  add_schedule x given now clock = do
    current ← lift (resolve now clock)
    expression ← lift (parse host.unicode x.cron)
    calculated ←
        lift (next_after host.calendar expression (aware current) x.timezone search_minutes)
    taken ← gets (λ s. contains x.id s.schedules)
    raise_if taken conflict
    next ← lift (resolve given calculated)
    let stored = record x { next_run_at = some next; created_at = current; updated_at = current }
    modify (put_schedule stored)
    modify (λ s. record s { expressions = insert x.id expression s.expressions })
    pure stored

  -- `schedule.next_run_at is None or schedule.next_run_at <= current`
  abbrev pub is_stale : Option ℕ → ℕ → Bool
  is_stale none now = true
  is_stale (some t) now = leb t now

  abbrev pub next_time : ℕ → Schedule P → Call (Option ℕ)
  next_time current x = do
    e ← find (λ s. lookup x.id s.expressions) key_error
    t ← lift (next_after host.calendar e (aware current) x.timezone search_minutes)
    pure (some t)

  abbrev pub renewed_run : Bool → ℕ → Schedule P → Call (Option ℕ)
  renewed_run on current x =
      if on && is_stale x.next_run_at current then next_time current x else pure x.next_run_at

  unfoldable pub set_enabled : ℕ → Bool → Option DateTime → (clock : ℕ) → Call (Schedule P)
  set_enabled id on now clock = do
    current ← lift (resolve now clock)
    x ← require_schedule id
    modify (put_schedule (record x { enabled = on }))
    next ← renewed_run on current x
    let stored = record x {
      enabled = on;
      next_run_at = next;
      version = x.version + 1;
      updated_at = current;
    }
    modify (put_schedule stored)
    pure stored

  abbrev pub skipped_fire : ℕ → ℕ → ℕ → FireStatus → ℕ → Fire
  skipped_fire id schedule_id at status now = record {
    id = id;
    schedule_id = schedule_id;
    scheduled_for = at;
    status = status;
    task_id = none;
    created_at = now;
  }

  -- `_record_fire`
  unfoldable pub record_fire : ℕ → ℕ → FireStatus → ℕ → Call (Option Fire)
  unfolding draw
  record_fire schedule_id at status now s =
      if contains (schedule_id, cron_slot at) s.fires
      then (ok none, s)
      else let f = skipped_fire (host.uuid s.drawn) schedule_id at status now in
        (ok (some f), put_fire (cron_slot at) f (record s { drawn = s.drawn + 1 }))

  abbrev pub add_some : Option Fire → List Fire → List Fire
  add_some none fs = fs
  add_some (some f) fs = f ∷ fs

  -- The loop over the skipped times.
  unfoldable pub record_skipped : ℕ → List ℕ → ℕ → Call (List Fire)
  unfolding record_fire
  record_skipped id [] now = pure []
  record_skipped id (t ∷ ts) now = do
    f ← record_fire id t skipped_misfire now
    rest ← record_skipped id ts now
    pure (add_some f rest)

  -- The loop that cancels the tasks that run.
  unfoldable pub cancel_all : List ℕ → ℕ → Call Unit
  unfolding on_queue
  cancel_all [] now = pure tt
  cancel_all (t ∷ ts) now = do _ ← on_queue (host.port.request_cancel t now); cancel_all ts now

  abbrev pub order_of : Schedule P → String → ℕ → Order P
  order_of x key at = record {
    task_type = x.task_type;
    payload = x.payload;
    queue = x.queue;
    priority = x.priority;
    max_attempts = x.max_attempts;
    idempotency_key = key;
    source_schedule_id = x.id;
    available_at = at;
  }

  abbrev pub enqueued_fire : ℕ → Schedule P → ℕ → ℕ → ℕ → Fire
  enqueued_fire id x at task_id now = record {
    id = id;
    schedule_id = x.id;
    scheduled_for = at;
    status = enqueued;
    task_id = some task_id;
    created_at = now;
  }

  -- The enqueue of a time that runs, after the tasks that it replaces were cancelled.
  unfoldable pub submit : Schedule P → ℕ → ℕ → Call (Option Fire)
  unfolding draw on_queue
  submit x at now = do
    task_id ← on_queue (host.port.enqueue (order_of x (host.cron_key x.id at) at))
    id ← draw
    modify (put_fire (cron_slot at) (enqueued_fire id x at task_id now))
    pure (some (enqueued_fire id x at task_id now))

  unfoldable pub cancel_replaced : Schedule P → List ℕ → ℕ → Call Unit
  unfolding cancel_all
  cancel_replaced x running now =
      if is_replace x.overlap_policy then cancel_all running now else pure tt

  unfoldable pub enqueue_fire : Schedule P → ℕ → List ℕ → ℕ → Call (Option Fire)
  unfolding submit cancel_replaced
  enqueue_fire x at running now = cancel_replaced x running now >>= λ _. submit x at now

  unfoldable pub run_or_skip : Schedule P → ℕ → ℕ → List ℕ → Call (Option Fire)
  unfolding enqueue_fire record_fire
  run_or_skip x at now running =
      if is_forbid x.overlap_policy && not (is_empty running)
      then record_fire x.id at skipped_overlap now
      else enqueue_fire x at running now

  -- The body of the loop over the times that run.
  unfoldable pub fire_one : Schedule P → ℕ → ℕ → Call (Option Fire)
  unfolding run_or_skip on_queue
  fire_one x at now s =
      if contains (x.id, cron_slot at) s.fires
      then (ok none, s)
      else (on_queue (host.port.active_for_schedule x.id) >>= run_or_skip x at now) s

  unfoldable pub fire_selected : Schedule P → List ℕ → ℕ → Call (List Fire)
  unfolding fire_one
  fire_selected x [] now = pure []
  fire_selected x (t ∷ ts) now = do
    f ← fire_one x t now
    rest ← fire_selected x ts now
    pure (add_some f rest)

  abbrev pub last_time : ℕ → List ℕ → ℕ
  last_time t [] = t
  last_time t (u ∷ us) = last_time u us

  abbrev pub ran : Schedule P → ℕ → ℕ → ℕ → Schedule P
  ran x last cursor now = record x {
    last_run_at = some last;
    next_run_at = some cursor;
    version = x.version + 1;
    updated_at = now;
  }

  -- `due[-1]` of an empty list raises an IndexError; the list has the schedule's next run at least,
  -- where that is due.
  abbrev pub finish_run : Schedule P → List ℕ → ℕ → ℕ → List Fire → Call (List Fire)
  finish_run x [] cursor now fs = raise index_error
  finish_run x (t ∷ ts) cursor now fs = do
    modify (put_schedule (ran x (last_time t ts) cursor now))
    pure fs

  unfoldable pub fire_from : Schedule P → ℕ → ℕ → Call (List Fire)
  unfolding fire_selected record_skipped
  fire_from x start now = do
    e ← find (λ s. lookup x.id s.expressions) key_error
    room ← gets (λ s. s.max_due)
    due ← lift (collect_due host.calendar e x.timezone now room start)
    times ← lift (apply_misfire_policy x due.0 now)
    skipped ← record_skipped x.id times.1 now
    fired ← fire_selected x times.0 now
    finish_run x due.0 due.1 now (skipped ++ fired)

  unfoldable pub fire_at : Schedule P → Option ℕ → ℕ → Call (List Fire)
  unfolding fire_from
  fire_at x none now = find (λ s. lookup x.id s.expressions) key_error >>= λ _. pure []
  fire_at x (some start) now = fire_from x start now

  -- `_fire_due_locked`
  unfoldable pub fire_due : Schedule P → ℕ → Call (List Fire)
  unfolding fire_at
  fire_due x now = fire_at x x.next_run_at now

  abbrev pub is_due : ℕ → Schedule P → Bool
  is_due now x = x.enabled && is_some x.next_run_at && is_stale x.next_run_at now

  abbrev pub time_of : Schedule P → ℕ
  time_of x = elim x.next_run_at [ none ↦ 0 | some t ↦ t ]

  abbrev pub runs_before : Schedule P → Schedule P → Bool
  runs_before x y =
      ltb (time_of x) (time_of y) || (nat_beq (time_of x) (time_of y) && ltb x.id y.id)

  -- `sorted`, which keeps the order of equal keys.
  abbrev pub place : Schedule P → List (Schedule P) → List (Schedule P)
  place x [] = x ∷ []
  place x (y ∷ ys) = let rest = place x ys in if runs_before y x then y ∷ rest else x ∷ y ∷ ys

  unfoldable pub sort_due : List (Schedule P) → List (Schedule P)
  sort_due [] = []
  sort_due (x ∷ xs) = place x (sort_due xs)

  unfoldable pub fire_all : List (Schedule P) → ℕ → Call (List Fire)
  unfolding fire_due
  fire_all [] now = pure []
  fire_all (x ∷ xs) now = do fs ← fire_due x now; rest ← fire_all xs now; pure (fs ++ rest)

  unfoldable pub tick : Option DateTime → (clock : ℕ) → Call (List Fire)
  unfolding fire_all
  tick now clock = do
    current ← lift (resolve now clock)
    due ← gets (λ s. sort_due (select (is_due current) (values s.schedules)))
    fire_all due current

  unfoldable pub run_now : ℕ → Option DateTime → (clock : ℕ) → Call Fire
  unfolding draw on_queue
  run_now id now clock = do
    current ← lift (resolve now clock)
    x ← require_schedule id
    manual_id ← draw
    task_id ← on_queue (host.port.enqueue (order_of x (host.manual_key x.id manual_id) current))
    modify (put_fire (manual_slot manual_id) (enqueued_fire manual_id x current task_id current))
    pure (enqueued_fire manual_id x current task_id current)
