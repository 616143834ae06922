-- ===== src/Tests.antt =====
-- Processes and tables of a small system: a leader with pid 3, a worker of its workflow with pid 4,
-- and an ordinary process with pid 5. The children run the theorems on them.
mod Mail
mod Tables
mod Files
mod Tools
mod Agents
use aaaos_renovation_agent_o.Prelude.{ℕ, ◌-◌, Bool, true, false, List, [], ◌∷◌, ℤ, pos, negsuc}
use aaaos_renovation_agent_o.Proc.{
  Proc, Identity, Workflow, Lease, Dep, Context, runnable, no_chan, loop_ready, cap_all,
  role_planner, role_unset, wf_active,
}
use aaaos_renovation_agent_o.Mailbox
use aaaos_renovation_agent_o.Workflow
use aaaos_renovation_agent_o.Lease
use aaaos_renovation_agent_o.Lease.{Inode, Leases}
use aaaos_renovation_agent_o.Lifecycle.{no_identity, no_events, no_link, fresh_sched, empty_context}

abbrev pub plain : Proc
plain = record {
  state = runnable;
  chan = no_chan;
  killed = false;
  pid = 5;
  sz = 8192;
  resource_quota = 0;
  loop_state = loop_ready;
  ident = no_identity;
  sched = fresh_sched 5 1 0;
  ev = no_events;
  wheel = no_link;
  mailbox = Mailbox.empty;
  ctx = empty_context 12288 8192 2;
}

abbrev pub leader : Proc
leader = record plain {
  pid = 3;
  ident = record no_identity {
    agent_type = 1;
    agent_role = role_planner;
    agent_role_locked = true;
    agent_group = 3;
    agent_capabilities = cap_all;
    workflow_id = 3;
    workflow_leader_pid = 3;
    workflow_leader_generation = 1;
    is_workflow_leader = true;
    workflow_member_registered = true;
    identity_generation = 1;
  };
  sched = fresh_sched 5 5 4;
}

abbrev pub worker : Proc
worker = record leader {
  pid = 4;
  ident = record leader.ident {
    agent_type = 2;
    agent_role = role_unset;
    agent_role_locked = false;
    agent_capabilities = 23;
    agent_parent_pid = 3;
    agent_parent_generation = 1;
    is_workflow_leader = false;
    identity_generation = 2;
  };
  sched = fresh_sched 5 3 2;
}

-- The workflow of the two
abbrev pub team : Workflow
team = record Workflow.blank {
  used = true;
  workflow_id = 3;
  leader_pid = 3;
  leader_generation = 1;
  state = wf_active;
  member_count = 2;
}

abbrev pub teams : List Workflow
teams = team ∷ Workflow.blank ∷ []

abbrev pub file : Inode
file = record { dev = 1; inum = 7; is_file = true }

-- The leader's lease of the file, until tick 210
abbrev pub held : Lease
held = record {
  used = true;
  dev = 1;
  inum = 7;
  owner_pid = 3;
  owner_generation = 1;
  lease_id = 4;
  base_version = 0;
  expiry_tick = 210;
}

abbrev pub leases : Leases
leases = record { table = held ∷ Lease.blank ∷ []; next_lease_id = 4 }
