-- ===== src/Wheel/Timeout.antt =====
-- A wait with a deadline ends: agent_tick of kernel/agent_loop.c as a whole, and the next pass of
-- agent_wait.
use aaaos_renovation_agent_o.Prelude.{ℕ, ◌≡◌, true, false, ◌⊎◌, ℤ, has_bit}
use aaaos_renovation_agent_o.Proc.{
  Proc, runnable, sleeping, own_chan, loop_waiting, is_normal, event_heartbeat,
}
use aaaos_renovation_agent_o.Wait.{sleep, prepare}
use aaaos_renovation_agent_o.Wheel.{Wheel}
use aaaos_renovation_agent_o.Wheel.Pointwise.{Pointwise}
use aaaos_renovation_agent_o.Wheel.Chain.{Chain}

-- The Agent after agent_wait began at `start` and went to sleep
abbrev pub waiting : Proc → ℤ → ℕ → Proc
waiting p timeout start = sleep (prepare p timeout start)

-- An Agent of the table before the last loop of a tick: what matters of it for the loop
abbrev Asks : ℕ → Proc → Type 0
Asks deadline q =
    (is_normal q ≡ false)
    × (q.loop_state ≡ loop_waiting)
    × (q.chan ≡ own_chan)
    × (q.wait_deadline ≡ deadline)
    × ((q.state ≡ sleeping)
        ⊎ ((q.state ≡ runnable) × (has_bit event_heartbeat q.pending_events ≡ true)))
