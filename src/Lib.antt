-- ===== src/Lib.antt =====
-- Verification of the Agent layer of AgentOS, an xv6 kernel (directory kernel/) whose processes can
-- become Agents with a mailbox, events, a Context of what they did, leases on files and rights.
--
-- The parts, and the module of each:
--   Proc       kernel/proc.h, kernel/agent.h: struct proc with its Agent fields, in records by the
--              part that owns them; the structs and constants of the Agent layer.
--   Events     kernel/agent_loop.c, agent_signal_event_locked: an event becomes pending, and a process
--              that sleeps in agent_wait becomes runnable. Mail, files and the clock all signal by it.
--   Mailbox    kernel/agent.c, agent_send_message: the ring of eight messages; kernel/agent_loop.c, the
--              branch of agent_proc_wait that takes the oldest one.
--   Wait       kernel/agent_loop.c, agent_proc_wait: `wait_pass` is a pass of its loop, `proc_wait` a
--              call, with what the others do in each sleep as a list.
--   Watch      kernel/agent_loop.c: watches of files, agent_notify_file_modified.
--   Wheel      kernel/agent_loop.c: the heartbeat wheel and agent_tick; a chain of the wheel as
--              the list of the places of its processes.
--   Sched      kernel/agent_loop.c, kernel/proc.c: score, choice, accounting and budgets.
--   Lease      kernel/agent.c: leases on files, agent_global.leases.
--   Workflow   kernel/agent.c, kernel/workflow.c: the workflow table, its members and counters, and
--              agent_cascade_terminate.
--   Rights     kernel/agent.c: capabilities and roles.
--   Lifecycle  kernel/agent.c: init, fork, exec and agent_mark_current, which joins the parts above,
--              and the calls by which an Agent changes its own rights.
--   Params     kernel/agent_tool.c: the parameters "key=value;" of a tool call, numbers and percent
--              codes in them, and the search of a text.
--   Files      kernel/agent_fs.c: the attributes of a file and their three tools.
--   FileIndex  kernel/agent_fs.c: the table of files, the chains of its tag index, the walk of the
--              tree that fills them, and the index and scan plans of a query.
--   QueryCache kernel/agent_fs.c: the shared cache of query results, and agentfs_tool_query_file,
--              which joins it to FileIndex.
--   Tools      kernel/agent_tool.c: policies and registration of tools, the queue of requests to
--              dynamic tools, agent_proc_exit, and the builtin tools for patches, leases and messages.
--   Region, Text, Context  kernel/agent_context.c: the Context region in user memory, the text of a
--              record, and push, query, validate and roll back.
--   Digest     kernel/agent.c: the hash chain of a Context.
--   Versions   kernel/agent_fs.c: the version of each file, against which a Context is validated.
--   Tests      a small system on which the theorems are run.
--
-- A C function becomes a function of the state it reads to the result and the state it leaves; a
-- pointer into a table becomes an index or the first match of the search. A critical section is one
-- step: locks are left out. agentfs_tool_query_file and agent_tick are one step each too, though
-- they release locks on the way. The clock is an argument, and is read once in a call; ticks are 32-bit
-- numbers, so a deadline in 64 bits does not wrap. What is not in these files is an argument: what
-- namei finds for a path, whether uvmalloc succeeds, whether user memory is mapped.
--
-- Loops are recursions on the list they walk. The eviction loop of a push runs on fuel for one
-- eviction more than there are nodes, which is enough by a theorem. A loop along a chain of the
-- heartbeat wheel has fuel for 65 steps, one more than the process table has entries, since a chain
-- without a cycle is no longer than the table.
--
-- The chain of a bucket of the file index is followed with fuel for as many steps as there are
-- postings, and a query is parsed with fuel for its length: a link goes to an earlier posting, and a
-- field takes at least a byte. The used postings are a list, since the code frees all at once.
--
-- Not modelled: agent_tool_call, which hands a call to the tools one by one and pushes the result to the
-- Context, batches, and the tools that only print a report (the rest of kernel/agent_tool.c); the
-- audit trace and agent_query_agent; the system call layer; and the xv6 kernel below, with its file
-- system: the tree that the index walks and what readi and writei do are arguments.
pub mod Prelude
pub mod Proc
pub mod Events
pub mod Mailbox
pub mod Lease
pub mod Workflow
pub mod Rights
pub mod Watch
pub mod Sched
pub mod Wait
pub mod Lifecycle
pub mod Versions
pub mod Digest
pub mod Text
pub mod Params
pub mod Files
pub mod FileIndex
pub mod QueryCache
pub mod Tools
pub mod Region
pub mod Context
pub mod Wheel
pub mod Tests
