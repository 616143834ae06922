-- ===== src/Watch/Notify.antt =====
-- Who is told of a change of a file.
use aaaos_renovation_agent_o.Prelude.{ℕ, ◌≡◌, true, List, has_bit, set_bit, take, ◌-◌, get_elem?}
use aaaos_renovation_agent_o.Proc.{Proc, event_filemod, message_max, sleeping, own_chan, runnable}
use aaaos_renovation_agent_o.Lease.{Inode}
use aaaos_renovation_agent_o.Watch.{ready_unless_done}

-- The process after a watch that is accepted
abbrev watching : Proc → List ℕ → Inode → Proc
watching p path ip = ready_unless_done (record p {
  ev = record p.ev {
    watch_mask = set_bit event_filemod p.watch_mask;
    watch_dev = ip.dev;
    watch_inum = ip.inum;
    watch_path = take (message_max - 1) path;
  };
})

-- The process after FILEMOD: the event is pending, and a wait is over.
abbrev pub Told : Proc → Proc → Type 0
Told p p' =
    (has_bit event_filemod p'.pending_events ≡ true)
    × (p.state ≡ sleeping → p.chan ≡ own_chan → p'.state ≡ runnable)

-- The same process stands at a place of both tables.
abbrev pub Same : List Proc → List Proc → ℕ → Type 0
Same procs procs' j = get_elem? procs' j ≡ get_elem? procs j
