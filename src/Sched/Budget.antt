-- ===== src/Sched/Budget.antt =====
-- The scheduling parameters stay in their ranges.
use aaaos_renovation_agent_o.Prelude.{ℕ, ◌≤◌, arith, ℤ}
use aaaos_renovation_agent_o.Proc.{Proc, sched_quota_max}
use aaaos_renovation_agent_o.Sched.{
  sched_set, priority_set, account, replenish_one, dispatch, scored, schedule_score, max_priority,
}

-- The ranges: the budget within the quota, and both priorities and the quota within their limits.
pub record InRange (p : Proc) : Type 0 where
  pub budget : p.sched_budget ≤ p.sched_quota
  pub quota : p.sched_quota ≤ sched_quota_max
  pub low : 1 ≤ p.sched_priority
  pub high : p.sched_priority ≤ 8
  pub priority : p.agent_priority ≤ max_priority

-- What the scheduler, the clock and the system calls do to these parameters
pub data Op : Type 0 where
  sets : ℤ → ℤ → Op
  sets_priority : ℤ → Op
  scores runs replenishes dispatches : Op

unfoldable pub step : ℕ → Op → Proc → Proc
step now (sets priority quota) p = (sched_set p priority quota now).1
step now (sets_priority priority) p = (priority_set p priority).1
step now scores p = (schedule_score p now).1
step now runs p = account p now
step now replenishes p = replenish_one now p
step now dispatches p = dispatch p

-- Whatever values the system calls are given, every operation keeps the budget within the quota and
-- the priorities and the quota within their limits.
pub step-InRange : (now : ℕ) (o : Op) (p : Proc) → InRange p → InRange (step now o p)
unfolding step sched_set priority_set schedule_score scored account replenish_one dispatch
step-InRange now (sets priority quota) p v = ground arith
step-InRange now (sets_priority priority) p v = ground arith
step-InRange now scores p v = ground arith
step-InRange now runs p v = ground arith
step-InRange now replenishes p v = ground arith
step-InRange now dispatches p v = ground arith
