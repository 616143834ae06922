-- ===== src/Sched.antt =====
-- The soft-budget scheduler: agent_schedule_score, agent_replenish_budgets, agent_proc_sched_set and
-- agent_proc_priority_set of kernel/agent_loop.c, and the choice and the accounting of scheduler() in
-- kernel/proc.c.
pub mod Pick
pub mod Budget
use aaaos_renovation_agent_o.Prelude.{
  ℕ, zero, suc, ◌+◌, ◌-◌, ◌*◌, ◌/◌, ◌%◌, ◌^◌, min, Bool, true, false, not, ◌&&◌, ◌||◌, Option, none,
  some, List, [], ◌∷◌, ltb, leb, ◌==◌, if◌then◌else◌, ℤ, pos, negsuc, sub_ℕ, pos_part, ◌+ℤ◌, ◌-ℤ◌,
  ltb_ℤ, has_bit, u64, set, get_elem?,
}
use aaaos_renovation_agent_o.Proc.{
  Status, ok, failed, not_agent, Proc, Sched, is_normal, is_agent, is_runnable, running,
  event_message, event_parent_gone, event_filemod, event_heartbeat, sched_priority_min,
  sched_priority_max, sched_quota_min, sched_quota_max, replenish_interval, default_priority,
}

abbrev pub max_priority : ℕ
max_priority = 10

abbrev pub aging_divisor : ℕ
aging_divisor = 5

abbrev pub aging_max : ℕ
aging_max = 20

abbrev pub vruntime_divisor : ℕ
vruntime_divisor = 4

abbrev pub budget_penalty_score : ℕ
budget_penalty_score = 5

-- agent_event_weight
unfoldable pub event_weight : ℕ → ℕ
event_weight e =
    if has_bit event_message e
    then 30
    else if has_bit event_parent_gone e
    then 25
    else if has_bit event_filemod e
    then 20
    else if has_bit event_heartbeat e
    then 10
    else 0

-- The conversion of a `uint64` to `int`
unfoldable pub int_of : ℕ → ℤ
int_of n = let w = n % 2 ^ 32 in if ltb w (2 ^ 31) then pos w else negsuc (2 ^ 32 - w - 1)

-- `runnable_since`, set at the first look at a runnable process
abbrev pub since : Proc → ℕ → ℕ
since p now = if p.runnable_since == 0 then (if now == 0 then 1 else now) else p.runnable_since

-- The time it has waited, as points
unfoldable pub aging : Proc → ℕ → ℕ
aging p now = min ((now - since p now) / aging_divisor) aging_max

abbrev pub max : ℕ → ℕ → ℕ
max a b = if ltb a b then b else a

-- The points of a process that runs no Agent
unfoldable pub base_score : Proc → ℕ → ℤ
base_score p now = pos (
    (if is_normal p then default_priority else max p.agent_priority p.sched_priority) * 10
    + aging p now)

-- What an Agent's events, boost and wait deadline add
unfoldable pub bonus : Proc → ℕ → ℕ
bonus p now =
    event_weight p.pending_events
    + p.sched_boost * 10
    + (if ltb 0 p.wait_deadline && leb p.wait_deadline (now + 5) then 15 else 0)

-- What its running time takes away
unfoldable pub runtime_penalty : Proc → ℤ
runtime_penalty p =
    if ltb 0 p.sched_vruntime then int_of (p.sched_vruntime / vruntime_divisor) else pos 0

-- What an empty budget takes away
unfoldable pub budget_cut : Proc → ℕ
budget_cut p = if leb p.sched_budget 0 then budget_penalty_score else 0

-- The score of agent_schedule_score for a runnable process
unfoldable pub score : Proc → ℕ → ℤ
score p now =
    if is_normal p
    then base_score p now
    else base_score p now +ℤ pos (bonus p now) -ℤ runtime_penalty p -ℤ pos (budget_cut p)

-- What agent_schedule_score writes into a runnable process
unfoldable pub scored : Proc → ℕ → Proc
scored p now = record p {
  sched = record p.sched {
    runnable_since = since p now;
    budget_penalty =
        if not (is_normal p) && leb p.sched_budget 0
        then p.budget_penalty + 1
        else p.budget_penalty;
  };
}

-- agent_schedule_score: -1 for a process that is not runnable.
unfoldable pub schedule_score : Proc → ℕ → ℤ × Proc
schedule_score p now = if is_runnable p.state then (score p now, scored p now) else (negsuc 0, p)

-- `best == 0 || score > best_score`, with the index and the score of `best`
abbrev pub beats : ℤ → Option (ℕ × ℤ) → Bool
beats s none = true
beats s (some (i, b)) = ltb_ℤ b s

-- The loop of scheduler() that looks for the best process; `i` is the index of the first one.
unfoldable pub pick : ℕ → ℕ → Option (ℕ × ℤ) → List Proc → Option (ℕ × ℤ)
pick now i best [] = best
pick now i best (p ∷ ps) =
    pick now (i + 1)
      (if is_runnable p.state && beats (score p now) best then some (i, score p now) else best) ps

-- The scores that the loop writes
unfoldable pub score_all : ℕ → List Proc → List Proc
score_all now [] = []
score_all now (p ∷ ps) = (schedule_score p now).1 ∷ score_all now ps

-- The chosen process before the switch to it
unfoldable pub dispatch : Proc → Proc
dispatch p = record p { state = running; sched = record p.sched { runnable_since = 0 } }

-- The accounting of scheduler() after a process ran
unfoldable pub account : Proc → ℕ → Proc
account p now = if is_normal p then p else record p {
  sched = record p.sched {
    sched_budget =
        if ltb 0 p.sched_quota && ltb 0 p.sched_budget then p.sched_budget - 1 else p.sched_budget;
    sched_vruntime = u64 (p.sched_vruntime + 1);
    sched_last_run = now;
    replenish_deadline =
        if p.replenish_deadline == 0 && ltb 0 p.sched_quota
        then now + replenish_interval
        else p.replenish_deadline;
    sched_boost = if ltb 0 p.sched_boost then p.sched_boost - 1 else p.sched_boost;
  };
}

-- The body of agent_replenish_budgets for one process
unfoldable pub replenish_one : ℕ → Proc → Proc
replenish_one now p =
    if is_agent p
      && ltb 0 p.sched_quota
      && ltb 0 p.replenish_deadline
      && leb p.replenish_deadline now
    then record p {
      sched = record p.sched {
        sched_budget = p.sched_quota;
        replenish_deadline = now + replenish_interval;
      };
    }
    else p

-- agent_replenish_budgets
unfoldable pub replenish_budgets : ℕ → List Proc → List Proc
replenish_budgets now [] = []
replenish_budgets now (p ∷ ps) = replenish_one now p ∷ replenish_budgets now ps

-- A budget above the quota is cut to it, and an empty one is filled.
abbrev pub refit : ℕ → ℕ → ℕ
refit budget quota =
    let b = if ltb quota budget then quota else budget in if leb b 0 then quota else b

-- agent_proc_sched_set
unfoldable pub sched_set : Proc → ℤ → ℤ → ℕ → Status × Proc
sched_set p priority quota now =
    if is_normal p
    then (not_agent, p)
    else if ltb_ℤ priority (pos sched_priority_min) || ltb_ℤ (pos sched_priority_max) priority
    then (failed, p)
    else if ltb_ℤ quota (pos sched_quota_min) || ltb_ℤ (pos sched_quota_max) quota
    then (failed, p)
    else (
      ok,
      record p {
        sched = record p.sched {
          sched_priority = pos_part priority;
          sched_quota = pos_part quota;
          sched_budget = refit p.sched_budget (pos_part quota);
          replenish_deadline = now + replenish_interval;
        };
      },
    )

-- agent_proc_priority_set
unfoldable pub priority_set : Proc → ℤ → Status × Proc
priority_set p priority =
    if is_normal p
    then (not_agent, p)
    else if ltb_ℤ priority (pos 0) || ltb_ℤ (pos max_priority) priority
    then (failed, p)
    else (
      ok,
      record p {
        sched = record p.sched {
          agent_priority = pos_part priority;
          sched_priority =
              if leb sched_priority_min (pos_part priority)
                && leb (pos_part priority) sched_priority_max
              then pos_part priority
              else p.sched_priority;
        };
      },
    )
