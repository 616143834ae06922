-- ===== src/Proc/Tests.antt =====
-- C's comparisons with the constants of the enumerations.
use aaaos_renovation_agent_o.Prelude.{Bool, true, false, not, ◌==◌}
use aaaos_renovation_agent_o.Proc.Records.{
  Proc, ProcState, unused, sleeping, runnable, LoopState, loop_waiting, loop_done, Chan, own_chan,
  Status, ok,
}
use aaaos_renovation_agent_o.Proc.Constants.{agent_type_normal}

-- `p->state == UNUSED`
abbrev pub is_unused : ProcState → Bool
is_unused unused = true
is_unused _ = false

-- `p->state == SLEEPING`
abbrev pub is_sleeping : ProcState → Bool
is_sleeping sleeping = true
is_sleeping _ = false

-- `p->state == RUNNABLE`
abbrev pub is_runnable : ProcState → Bool
is_runnable runnable = true
is_runnable _ = false

-- `p->chan == p`
abbrev pub is_own_chan : Chan → Bool
is_own_chan own_chan = true
is_own_chan _ = false

-- `p->loop_state == AGENT_LOOP_DONE`
abbrev pub is_loop_done : LoopState → Bool
is_loop_done loop_done = true
is_loop_done _ = false

-- `p->loop_state == AGENT_LOOP_WAITING`
abbrev pub is_loop_waiting : LoopState → Bool
is_loop_waiting loop_waiting = true
is_loop_waiting _ = false

-- `ret == AGENT_TOOL_OK`
abbrev pub is_ok : Status → Bool
is_ok ok = true
is_ok _ = false

-- `p->agent_type == AGENT_TYPE_NORMAL`
abbrev pub is_normal : Proc → Bool
is_normal p = p.agent_type == agent_type_normal

-- `p->state != UNUSED && p->agent_type != AGENT_TYPE_NORMAL`, the test of every scan of the table
abbrev pub is_agent : Proc → Bool
is_agent p = elim (is_unused p.state) [ true ↦ false | false ↦ not (is_normal p) ]
