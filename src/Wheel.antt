-- ===== src/Wheel.antt =====
-- Heartbeats and the timing wheel: the agent_heartbeat_wheel_ functions, agent_proc_heartbeat_set and
-- _stop and agent_tick of kernel/agent_loop.c. A bucket is a chain of table indices plus 1 through
-- `heartbeat_wheel_next`; a loop along a chain has fuel for more steps than there are processes, and
-- gives `none` where a chain is longer.
pub mod Pointwise
pub mod Chain
pub mod Beats
pub mod Timeout
use aaaos_renovation_agent_o.Prelude.{
  ℕ, zero, suc, ◌+◌, ◌-◌, ◌%◌, Bool, true, false, not, ◌&&◌, ◌||◌, Option, none, some, List, [],
  ◌∷◌, ltb, leb, ◌==◌, if◌then◌else◌, ℤ, pos, negsuc, pos_part, leb_ℤ, ltb_ℤ, get_or, get_elem?,
  set, clear_bit, u64,
}
use aaaos_renovation_agent_o.Proc.{
  Status, ok, failed, not_agent, Proc, Lease, WheelLink, is_agent, is_normal, is_loop_done,
  is_loop_waiting, is_sleeping, is_own_chan, loop_ready, runnable, nproc, wheel_buckets,
  event_heartbeat,
}
use aaaos_renovation_agent_o.Events.{signal_event}
use aaaos_renovation_agent_o.Lease.{Leases, reap_expired}
use aaaos_renovation_agent_o.Sched.{replenish_budgets}

-- The wheel fields of agent_global
pub record Wheel : Type 0 where
  pub heads : List ℕ
  pub count : ℕ
  pub min_deadline : ℕ
  pub tick_scanned : ℕ
  pub tick_wakeups : ℕ

-- agent_wheel_proc
unfoldable pub wheel_proc : List Proc → ℕ → Option Proc
wheel_proc procs index = if index == 0 || ltb nproc index then none else get_elem? procs (index - 1)

abbrev pub next_or_zero : Option Proc → ℕ
next_or_zero none = 0
next_or_zero (some p) = p.wheel.next

-- `cp ? cp->heartbeat_wheel_next : 0`
unfoldable pub next_of : List Proc → ℕ → ℕ
next_of procs index = next_or_zero (wheel_proc procs index)

-- An entry that is in no bucket
abbrev pub unlinked : WheelLink
unlinked = record { next = 0; bucket = negsuc 0; active = false }

abbrev pub write_proc : (Proc → Proc) → List Proc → ℕ → Option Proc → List Proc
write_proc f procs i none = procs
write_proc f procs i (some p) = set procs i (f p)

-- An assignment to the process at a place of the table
unfoldable pub modify : (Proc → Proc) → List Proc → ℕ → List Proc
modify f procs i = write_proc f procs i (get_elem? procs i)

-- The walk along a bucket for an index: what stands before it, and after it. `some none` is a chain
-- that ends without it.
unfoldable pub locate : ℕ → List Proc → ℕ → ℕ → ℕ → Option (Option (ℕ × ℕ))
locate zero procs index previous current = if current == 0 then some none else none
locate (suc fuel) procs index previous current =
    let rest = locate fuel procs index current (next_of procs current) in
    if current == 0
    then some none
    else if current == index
    then some (some (previous, next_of procs current))
    else rest

-- The link that jumps over the entry: the head of the bucket, or its predecessor's
unfoldable pub bypass : ℕ → ℕ → ℕ → List Proc → Wheel → List Proc × Wheel
bypass bucket previous next procs w =
    let w' : Wheel = record w { count = if ltb 0 w.count then w.count - 1 else w.count } in
    if previous == 0 then (procs, record w' { heads = set w.heads bucket next }) else (
      modify (λ q. record q { wheel = record q.wheel { next = next } }) procs (previous - 1),
      w',
    )

abbrev pub unlink_found : ℕ → List Proc → Wheel → Option (ℕ × ℕ) → List Proc × Wheel
unlink_found bucket procs w none = (procs, w)
unlink_found bucket procs w (some (previous, next)) = bypass bucket previous next procs w

abbrev pub forget : ℕ → List Proc × Wheel → List Proc × Wheel
forget i (procs, w) = (modify (λ q. record q { wheel = unlinked }) procs i, w)

abbrev pub after_walk :
    ℕ → ℕ → List Proc → Wheel → Option (Option (ℕ × ℕ)) → Option (List Proc × Wheel)
after_walk i bucket procs w none = none
after_walk i bucket procs w (some at) = some (forget i (unlink_found bucket procs w at))

-- agent_heartbeat_wheel_remove_locked, for the process `p` at place `i` of the table
unfoldable pub wheel_remove : List Proc → Wheel → ℕ → Proc → Option (List Proc × Wheel)
wheel_remove procs w i p =
    let bucket = pos_part p.wheel.bucket in
    if not p.wheel.active
    then some (procs, w)
    else if ltb_ℤ p.wheel.bucket (pos 0) || leb wheel_buckets bucket
    then some (forget i (procs, w))
    else after_walk i bucket procs w (locate (nproc + 1) procs (i + 1) 0 (get_or w.heads bucket 0))

-- A process whose heartbeat belongs into the wheel
unfoldable pub beats_on : Proc → Bool
beats_on p =
    is_agent p
    && not (is_loop_done p.loop_state)
    && ltb_ℤ (pos 0) p.heartbeat_interval
    && not (p.heartbeat_deadline == 0)

-- The part of agent_heartbeat_wheel_insert_locked after a removal
unfoldable pub wheel_link : List Proc → Wheel → ℕ → Proc → List Proc × Wheel
wheel_link procs w i p =
    let b = p.heartbeat_deadline % wheel_buckets in
    if beats_on p
    then (
      modify
          (λ q. record q {
            wheel = record { next = get_or w.heads b 0; bucket = pos b; active = true };
          })
          procs i,
      record w {
        heads = set w.heads b (i + 1);
        count = w.count + 1;
        min_deadline =
            if w.min_deadline == 0 || ltb p.heartbeat_deadline w.min_deadline
            then p.heartbeat_deadline
            else w.min_deadline;
      },
    )
    else (procs, w)

abbrev pub link_after : ℕ → Proc → Option (List Proc × Wheel) → Option (List Proc × Wheel)
link_after i p none = none
link_after i p (some (procs, w)) = some (wheel_link procs w i p)

-- agent_heartbeat_wheel_insert_locked, and agent_heartbeat_wheel_reschedule
unfoldable pub wheel_insert : List Proc → Wheel → ℕ → Proc → Option (List Proc × Wheel)
wheel_insert procs w i p =
    if p.wheel.active
    then link_after i p (wheel_remove procs w i p)
    else some (wheel_link procs w i p)

-- `pending_events &= ~AGENT_EVENT_HEARTBEAT`, and the reason with it
abbrev pub forget_beat : Proc → Proc
forget_beat p = record p {
  ev = record p.ev {
    pending_events = clear_bit event_heartbeat p.pending_events;
    last_wakeup_reason =
        if p.last_wakeup_reason == event_heartbeat then 0 else p.last_wakeup_reason;
  };
}

-- The process after agent_proc_heartbeat_set
unfoldable pub with_beat : Proc → ℤ → ℕ → Proc
with_beat p interval now =
    let q : Proc = record p {
      ev = record p.ev {
        heartbeat_interval = interval;
        heartbeat_deadline = now + pos_part interval + 1;
      };
    } in
    record (forget_beat q) {
      loop_state = if is_loop_done p.loop_state then p.loop_state else loop_ready;
    }

abbrev pub with_status : Status → Option (List Proc × Wheel) → Option (Status × List Proc × Wheel)
with_status s none = none
with_status s (some (procs, w)) = some (s, procs, w)

-- agent_proc_heartbeat_set
unfoldable pub heartbeat_set :
    List Proc → Wheel → ℕ → Proc → ℤ → ℕ → Option (Status × List Proc × Wheel)
heartbeat_set procs w i p interval now =
    if is_normal p
    then some (not_agent, procs, w)
    else if leb_ℤ interval (pos 0)
    then some (failed, procs, w)
    else with_status ok
        (wheel_insert (set procs i (with_beat p interval now)) w i (with_beat p interval now))

abbrev pub silenced : Proc → Proc
silenced p =
    forget_beat
      (record p { ev = record p.ev { heartbeat_interval = pos 0; heartbeat_deadline = 0 } })

abbrev pub silence : ℕ → Option (List Proc × Wheel) → Option (Status × List Proc × Wheel)
silence i none = none
silence i (some (procs, w)) = some (ok, modify silenced procs i, w)

-- agent_proc_heartbeat_stop
unfoldable pub heartbeat_stop : List Proc → Wheel → ℕ → Proc → Option (Status × List Proc × Wheel)
heartbeat_stop procs w i p =
    if is_normal p then some (not_agent, procs, w) else silence i (wheel_remove procs w i p)

abbrev pub one_less : Option Proc → Wheel → Wheel
one_less none w = w
one_less (some p) w = record w { count = if ltb 0 w.count then w.count - 1 else w.count }

-- The first loop of agent_tick: every entry of the detached chain is marked as in no bucket, and
-- keeps its link.
unfoldable pub detach : ℕ → List Proc → Wheel → ℕ → Option (List Proc × Wheel)
detach zero procs w scan = if scan == 0 then some (procs, w) else none
detach (suc fuel) procs w scan =
    let detached =
      modify (λ q. record q { wheel = record q.wheel { bucket = negsuc 0; active = false } }) procs
        (scan - 1) in
    let rest = detach fuel detached (one_less (wheel_proc procs scan) w) (next_of procs scan) in
    if scan == 0 then some (procs, w) else rest

-- A heartbeat that is due
unfoldable pub is_due : Proc → ℕ → Bool
is_due p now = beats_on p && leb p.heartbeat_deadline now

-- The process of the chain after its heartbeat
unfoldable pub beat : Proc → ℕ → Proc
beat p now =
    let q : Proc = record p { wheel = record p.wheel { next = 0 } } in
    if is_due q now
    then (let s = signal_event q event_heartbeat now in
        record s { ev = record s.ev { heartbeat_deadline = now + pos_part s.heartbeat_interval } })
    else q

-- The body of the second loop for the process at place `i`
unfoldable pub beat_at : List Proc → Wheel → ℕ → Proc → ℕ → Option (List Proc × Wheel)
beat_at procs w i p now =
    let q = beat p now in
    let w' : Wheel = record w {
      tick_scanned = u64 (w.tick_scanned + 1);
      tick_wakeups = if is_due p now then u64 (w.tick_wakeups + 1) else w.tick_wakeups;
    } in
    if beats_on q then wheel_insert (set procs i q) w' i q else some (set procs i q, w')

abbrev pub beat_found : List Proc → Wheel → ℕ → Option Proc → ℕ → Option (List Proc × Wheel)
beat_found procs w i none now = some (procs, w)
beat_found procs w i (some p) now = beat_at procs w i p now

-- The second loop of agent_tick
unfoldable pub beat_chain : ℕ → List Proc → Wheel → ℕ → ℕ → Option (List Proc × Wheel)
beat_chain zero procs w current now = if current == 0 then some (procs, w) else none
beat_chain (suc fuel) procs w current now =
    if current == 0
    then some (procs, w)
    else elim (beat_found procs w (current - 1) (wheel_proc procs current) now) [
      | none ↦ none
      | some (procs', w') ↦ beat_chain fuel procs' w' (next_of procs current) now
    ]

-- A waiting Agent whose deadline has passed
unfoldable pub is_overdue : Proc → ℕ → Bool
is_overdue p now =
    is_sleeping p.state
    && is_own_chan p.chan
    && not (is_normal p)
    && is_loop_waiting p.loop_state
    && ltb 0 p.wait_deadline
    && leb p.wait_deadline now

-- The body of the last loop of agent_tick
unfoldable pub wake_overdue : ℕ → Proc → Proc
wake_overdue now p =
    if is_overdue p now
    then record p { ev = record p.ev { wakeup_tick = now }; state = runnable }
    else p

-- The last loop of agent_tick
unfoldable pub wake_all_overdue : ℕ → List Proc → List Proc
wake_all_overdue now [] = []
wake_all_overdue now (p ∷ ps) = wake_overdue now p ∷ wake_all_overdue now ps

-- The heartbeat part of agent_tick
unfoldable pub tick_wheel : ℕ → List Proc → Wheel → Option (List Proc × Wheel)
tick_wheel now procs w =
    let b = now % wheel_buckets in
    let head = get_or w.heads b 0 in
    elim (detach (nproc + 1) procs (record w { heads = set w.heads b 0 }) head) [
      | none ↦ none
      | some (procs', w') ↦ beat_chain (nproc + 1) procs' w' head now
    ]

-- agent_tick
unfoldable pub agent_tick : ℕ → List Proc → Wheel → Leases → Option (List Proc × Wheel × Leases)
agent_tick now procs w s = elim (tick_wheel now (replenish_budgets now procs) w) [
  | none ↦ none
  | some (procs', w') ↦
      some (wake_all_overdue now procs', w', record s { table = reap_expired now s.table })
]
