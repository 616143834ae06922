-- ===== src/Events.antt =====
-- Event bits of an Agent: kernel/agent_loop.c, agent_signal_event_locked.
pub mod Bits
use aaaos_renovation_agent_o.Prelude.{ℕ, ltb, if◌then◌else◌, set_bit, ◌&&◌}
use aaaos_renovation_agent_o.Proc.{Proc, runnable, is_sleeping, is_own_chan}

-- agent_signal_event_locked
unfoldable pub signal_event : Proc → ℕ → ℕ → Proc
signal_event p event now = record p {
  ev = record p.ev {
    pending_events = set_bit event p.pending_events;
    last_wakeup_reason = set_bit event p.pending_events;
    wakeup_tick = now;
  };
  sched = record p.sched { sched_boost = if ltb p.sched_boost 2 then 2 else p.sched_boost };
  state = if is_sleeping p.state && is_own_chan p.chan then runnable else p.state;
}
