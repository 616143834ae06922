-- ===== src/Wait.antt =====
-- agent_wait: agent_proc_wait of kernel/agent_loop.c. One pass of its loop is `wait_pass`; a whole
-- wait is a run of passes, with what other processes do to this one while it sleeps between them.
-- The clock is read once in a pass. A copyout of the event is an argument: it is good or it faults.
pub mod Pass
use aaaos_renovation_agent_o.Prelude.{
  ℕ, zero, suc, ◌+◌, ◌-◌, Bool, true, false, not, ◌&&◌, ◌||◌, Option, none, some, List, [], ◌∷◌,
  ltb, leb, ◌==◌, if◌then◌else◌, ℤ, pos, negsuc, pos_part, leb_ℤ, has_bit, set_bit, clear_bit, u64,
  eqb_ℤ,
}
use aaaos_renovation_agent_o.Proc.{
  Proc, Workflow, Message, MessageType, normal, is_normal, loop_done, loop_ready, loop_waiting,
  LoopState, sleeping, own_chan, no_chan, event_heartbeat, event_message, event_filemod,
  event_parent_gone,
}
use aaaos_renovation_agent_o.Workflow.Counters.{metric_wait}
use aaaos_renovation_agent_o.Mailbox
use aaaos_renovation_agent_o.Mailbox.{receive}

-- The values of `event.reason`
pub data Reason : Type 0 where
  by_parent_gone by_message by_filemod by_heartbeat by_timeout by_cancel : Reason

-- struct agent_wait_event: its message fields are those of `message`, after memset those of
-- `Mailbox.blank`; `file` is the path of the watched file.
pub record Event : Type 0 where
  pub reason : Reason
  pub tick : ℕ
  pub message : Message
  pub file : List ℕ

-- The results of agent_proc_wait; `fault` is the -1 of a failed copyout and of a killed process.
pub data Answer : Type 0 where
  refused stopped no_source fault : Answer
  woken : Reason → Answer

-- The state after a wait with `continue_loop == 0`
unfoldable pub stop : Proc → Proc
stop p = record p {
  loop_state = loop_done;
  ev = record p.ev {
    heartbeat_interval = pos 0;
    heartbeat_deadline = 0;
    watch_mask = 0;
    pending_events = 0;
    last_wakeup_reason = 0;
    watch_dev = 0;
    watch_inum = 0;
    watch_path = [];
    wait_generation = 0;
    wait_deadline = 0;
  };
  mailbox = Mailbox.empty;
  sched = record p.sched { sched_boost = 0 };
}

-- Nothing can wake it: the test for AGENT_WAIT_NO_SOURCE.
unfoldable pub has_no_source : Proc → ℤ → Bool
has_no_source p timeout =
    eqb_ℤ p.heartbeat_interval (pos 0)
    && p.watch_mask == 0
    && p.mailbox.count == 0
    && leb_ℤ timeout (pos 0)

-- The state at the start of the loop
unfoldable pub prepare : Proc → ℤ → ℕ → Proc
prepare p timeout now = record p {
  loop_state = loop_waiting;
  ev = record p.ev {
    wait_generation = u64 (p.wait_generation + 1);
    wait_timeout_ticks = pos (pos_part timeout);
    wait_deadline = if leb_ℤ timeout (pos 0) then 0 else now + pos_part timeout;
  };
}

-- What every return from the loop writes
abbrev pub leave : Proc → LoopState → Proc
leave p s = record p {
  loop_state = s;
  ev = record p.ev { wait_generation = u64 (p.wait_generation + 1) };
}

-- `p->wakeup_tick ? p->wakeup_tick : agent_now_safe()`
abbrev pub tick_of : Proc → ℕ → ℕ
tick_of p now = if p.wakeup_tick == 0 then now else p.wakeup_tick

-- The pending bits and the last reason after an event is taken
abbrev pub take_event : Proc → ℕ → Proc
take_event p e = record p {
  ev = record p.ev { pending_events = clear_bit e p.pending_events; last_wakeup_reason = e };
}

-- The branch of a queued message
unfoldable pub take_message : Proc → Proc
take_message p =
    let m = (receive p.mailbox).1 in
    record p {
      mailbox = m;
      ev = record p.ev {
        pending_events =
            if ltb 0 m.count
            then set_bit event_message p.pending_events
            else clear_bit event_message p.pending_events;
        last_wakeup_reason = event_message;
      };
    }

abbrev pub plain_event : Reason → ℕ → Event
plain_event r tick = record { reason = r; tick = tick; message = Mailbox.blank; file = [] }

-- The deadline of the wait has passed.
unfoldable pub is_late : Proc → ℕ → Bool
is_late p now = ltb 0 p.wait_deadline && leb p.wait_deadline now

-- The state that calls sched()
abbrev pub sleep : Proc → Proc
sleep p = record p { chan = own_chan; state = sleeping }

-- The tests of a pass, in their order
unfoldable pub wait_reason : Proc → ℕ → Option Reason
wait_reason p now =
    if has_bit event_parent_gone p.pending_events
    then some by_parent_gone
    else if ltb 0 p.mailbox.count
    then some by_message
    else if has_bit event_filemod p.pending_events
    then some by_filemod
    else if has_bit event_heartbeat p.pending_events
    then some by_heartbeat
    else if is_late p now
    then some by_timeout
    else if p.killed
    then some by_cancel
    else none

-- What the pass does for a reason
unfoldable pub wake : Proc → ℕ → Reason → Event × Proc
wake p now by_parent_gone =
    (plain_event by_parent_gone (tick_of p now), leave (take_event p event_parent_gone) loop_done)
wake p now by_message = (
  record { reason = by_message; tick = tick_of p now; message = (receive p.mailbox).0; file = [] },
  leave (take_message p) loop_ready,
)
wake p now by_filemod = (
  record {
    reason = by_filemod;
    tick = tick_of p now;
    message = Mailbox.blank;
    file = p.watch_path;
  },
  leave (take_event p event_filemod) loop_ready,
)
wake p now by_heartbeat =
    (plain_event by_heartbeat (tick_of p now), leave (take_event p event_heartbeat) loop_ready)
wake p now by_timeout = (plain_event by_timeout now, leave p loop_ready)
wake p now by_cancel = (plain_event by_cancel now, leave p loop_done)

-- One pass of the loop: the event it returns with, or none where it sleeps.
unfoldable pub wait_pass : Proc → ℕ → Option Event × Proc
wait_pass p now = elim (wait_reason p now) [
  | none ↦ (none, sleep p)
  | some r ↦ let (e, q) = wake p now r in (some e, q)
]

-- `p->chan = 0` after sched()
abbrev pub resume : Proc → Proc
resume p = record p { chan = no_chan }

-- The result: -1 after a failed copyout and for a killed process
abbrev pub answer : Bool → Reason → Answer
answer copied by_cancel = fault
answer copied r = if copied then woken r else fault

abbrev pub is_message : Reason → Bool
is_message by_message = true
is_message _ = false

-- The loop. Each element of the list is what the others do in one sleep, and the time after it; none
-- where the wait does not end in it. The last component is the time of the return.
unfoldable pub wait_loop :
    Proc → ℕ → Bool → List ((Proc → Proc) × ℕ) → Option (Answer × Event × Proc × ℕ)
wait_loop p now copied [] = elim ((wait_pass p now).0) [
  | some e ↦ some (answer copied e.reason, e, (wait_pass p now).1, now)
  | none ↦ none
]
wait_loop p now copied ((others, later) ∷ sleeps) =
    let rest = wait_loop (resume (others (wait_pass p now).1)) later copied sleeps in
    elim ((wait_pass p now).0) [
      | some e ↦ some (answer copied e.reason, e, (wait_pass p now).1, now)
      | none ↦ rest
    ]

-- The count of the wait in its workflow; the clock does not run backwards.
abbrev pub finish :
    ℕ → List Workflow → Option (Answer × Event × Proc × ℕ) → Option (Answer × Proc × List Workflow)
finish start ws none = none
finish start ws (some (a, e, p, end)) =
    some (a, p, metric_wait (some p) (end - start) (is_message e.reason) ws)

-- agent_proc_wait; `copied` is whether `uevent` is 0 or its copyout succeeds.
unfoldable pub proc_wait :
    Proc
    → Bool
    → Bool
    → ℤ
    → ℕ
    → List ((Proc → Proc) × ℕ)
    → List Workflow
    → Option (Answer × Proc × List Workflow)
proc_wait p continue_loop copied timeout now sleeps ws =
    if is_normal p
    then some (refused, p, ws)
    else if not continue_loop
    then some (stopped, stop p, ws)
    else if has_no_source p timeout
    then some (no_source, p, ws)
    else finish now ws (wait_loop (prepare p timeout now) now copied sleeps)
