-- ===== src/Watch.antt =====
-- Watches and file events: agent_proc_watch, _unwatch and _watch_file, agent_signal_filemod and
-- agent_notify_file_modified of kernel/agent_loop.c.
pub mod Notify
use aaaos_renovation_agent_o.Prelude.{
  ℕ, zero, suc, ◌+◌, ◌-◌, ◌^◌, ◌%◌, Bool, true, false, not, ◌&&◌, Option, none, some, List, [], ◌∷◌,
  ◌==◌, if◌then◌else◌, has_bit, set_bit, clear_bit, take, map,
}
use aaaos_renovation_agent_o.Proc.{
  Status, ok, failed, not_agent, Proc, Events, is_normal, is_agent, is_loop_done, loop_ready,
  event_message, event_filemod, message_max,
}
use aaaos_renovation_agent_o.Events.{signal_event}
use aaaos_renovation_agent_o.Lease.{Inode}
use aaaos_renovation_agent_o.Versions.{Entry, version_bump}

-- `mask & ~(AGENT_WATCH_MESSAGE | AGENT_WATCH_FILEMOD)`, of the bits of an int
unfoldable pub other_bits : ℕ → ℕ
other_bits mask = clear_bit event_message (clear_bit event_filemod mask)

-- `w | mask`, for a mask with no other bits
abbrev pub add_watch : ℕ → ℕ → ℕ
add_watch w mask =
    let w' = if has_bit event_message mask then set_bit event_message w else w in
    if has_bit event_filemod mask then set_bit event_filemod w' else w'

abbrev pub ready_unless_done : Proc → Proc
ready_unless_done p = record p {
  loop_state = if is_loop_done p.loop_state then p.loop_state else loop_ready;
}

-- agent_proc_watch
unfoldable pub watch : Proc → ℕ → Status × Proc
watch p mask =
    if is_normal p then (not_agent, p) else if not (other_bits mask == 0) then (failed, p) else (
      ok,
      ready_unless_done
          (record p { ev = record p.ev { watch_mask = add_watch p.watch_mask mask } }),
    )

-- `w & ~mask` where only the two watch bits of `w` can be set
abbrev pub remove_watch : ℕ → ℕ → ℕ
remove_watch w mask =
    let w' = if has_bit event_message mask then clear_bit event_message w else w in
    if has_bit event_filemod mask then clear_bit event_filemod w' else w'

-- The events and the file of a watch that is gone are forgotten.
abbrev pub forget_message : Events → Events
forget_message e =
    if has_bit event_message e.watch_mask
    then e
    else record e { pending_events = clear_bit event_message e.pending_events }

abbrev pub forget_file : Events → Events
forget_file e = if has_bit event_filemod e.watch_mask then e else record e {
  pending_events = clear_bit event_filemod e.pending_events;
  watch_dev = 0;
  watch_inum = 0;
  watch_path = [];
}

-- agent_proc_unwatch; a mask of 0 removes every watch.
unfoldable pub unwatch : Proc → ℕ → Status × Proc
unwatch p mask =
    if is_normal p
    then (not_agent, p)
    else let w = if mask == 0 then 0 else remove_watch p.watch_mask mask in
      (ok, record p { ev = forget_file (forget_message (record p.ev { watch_mask = w })) })

-- agent_proc_watch_file: `path` is what copyinstr reads, `file` what namei and ilock find for it.
unfoldable pub watch_file : Proc → Option (List ℕ) → Option Inode → Status × Proc
watch_file p none file = if is_normal p then (not_agent, p) else (failed, p)
watch_file p (some path) none = if is_normal p then (not_agent, p) else (failed, p)
watch_file p (some path) (some ip) =
    if is_normal p then (not_agent, p) else if not ip.is_file then (failed, p) else (
      ok,
      ready_unless_done (record p {
        ev = record p.ev {
          watch_mask = set_bit event_filemod p.watch_mask;
          watch_dev = ip.dev;
          watch_inum = ip.inum;
          watch_path = take (message_max - 1) path;
        };
      }),
    )

-- The test of agent_signal_filemod
unfoldable pub watches_files : Proc → Bool
watches_files p =
    is_agent p && not (is_loop_done p.loop_state) && has_bit event_filemod p.watch_mask

-- agent_signal_filemod
unfoldable pub signal_filemod : ℕ → List Proc → List Proc
signal_filemod now [] = []
signal_filemod now (p ∷ ps) =
    (if watches_files p then signal_event p event_filemod now else p) ∷ signal_filemod now ps

-- The test of agent_notify_file_modified
unfoldable pub watches : ℕ → ℕ → Proc → Bool
watches dev inum p =
    is_agent p && has_bit event_filemod p.watch_mask && p.watch_inum == inum && p.watch_dev == dev

-- The loop of agent_notify_file_modified
unfoldable pub notify_watchers : ℕ → ℕ → ℕ → List Proc → List Proc
notify_watchers dev inum now [] = []
notify_watchers dev inum now (p ∷ ps) =
    (if watches dev inum p then signal_event p event_filemod now else p)
    ∷ notify_watchers dev inum now ps

-- agent_notify_file_modified, with the table of file versions
unfoldable pub notify_file_modified : ℕ → ℕ → ℕ → List Proc → List Entry → List Proc × List Entry
notify_file_modified dev inum now procs es =
    (notify_watchers dev inum now procs, (version_bump dev inum es).1)
