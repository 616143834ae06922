-- ===== src/Mailbox.antt =====
-- The bounded FIFO mailbox: agent_send_message of kernel/agent.c, and the message branch of
-- agent_proc_wait of kernel/agent_loop.c.
pub mod Inv
pub mod Refine
pub mod Send
use aaaos_renovation_agent_o.Prelude.{
  ℕ, zero, suc, ◌+◌, ◌-◌, ◌%◌, min, Bool, true, false, ◌&&◌, ◌||◌, Option, none, some, List, [],
  ◌∷◌, ltb, leb, ◌==◌, if◌then◌else◌, u64, ℤ, pos, length, take, get_or, set, replicate,
}
use aaaos_renovation_agent_o.Proc.{
  Status, ok, bad_param, service_gone, busy, Message, MessageType, normal, system, Mailbox, Proc,
  mailbox_cap, mailbox_system_slots, message_max, event_message, is_agent,
}
use aaaos_renovation_agent_o.Events.{signal_event}

-- A slot after memset
abbrev pub blank : Message
blank = record {
  from_pid = 0;
  type = normal;
  length = 0;
  sequence = 0;
  request_id = 0;
  payload = [];
}

-- `memset(&p->mailbox, 0, …); p->mailbox.next_sequence = 1`
abbrev pub empty : Mailbox
empty = record {
  queue = replicate mailbox_cap blank;
  head = 0;
  tail = 0;
  count = 0;
  normal_count = 0;
  system_count = 0;
  dropped = 0;
  system_dropped = 0;
  next_sequence = 1;
}

abbrev pub is_system : MessageType → Bool
is_system system = true
is_system normal = false

-- The two values of `msg_type` that are accepted.
abbrev pub message_type : ℤ → Option MessageType
message_type (pos zero) = some normal
message_type (pos (suc zero)) = some system
message_type _ = none

-- The test before a message is queued.
unfoldable pub refuses : Mailbox → MessageType → Bool
refuses m normal =
    leb (mailbox_cap - mailbox_system_slots) m.normal_count || leb mailbox_cap m.count
refuses m system = leb mailbox_cap m.count

-- The counters of a refused message
unfoldable pub drop_message : Mailbox → MessageType → Mailbox
drop_message m t = record m {
  dropped = u64 (m.dropped + 1);
  system_dropped = if is_system t then u64 (m.system_dropped + 1) else m.system_dropped;
}

-- What is queued: the payload is cut to `message_max - 1` bytes.
unfoldable pub stamp : ℕ → ℕ → MessageType → List ℕ → ℕ → Message
stamp sequence from t payload request_id = record {
  from_pid = from;
  type = t;
  length = min (length payload) (message_max - 1);
  sequence = sequence;
  request_id = request_id;
  payload = take (message_max - 1) payload;
}

unfoldable pub enqueue : Mailbox → Message → Mailbox
enqueue m msg = record m {
  queue = set m.queue m.tail msg;
  tail = (m.tail + 1) % mailbox_cap;
  count = m.count + 1;
  normal_count = if is_system msg.type then m.normal_count else m.normal_count + 1;
  system_count = if is_system msg.type then m.system_count + 1 else m.system_count;
  next_sequence = u64 (m.next_sequence + 1);
}

-- The part of agent_send_message under the target's lock.
unfoldable pub deliver : Proc → ℕ → MessageType → List ℕ → ℕ → ℕ → Status × Proc
deliver target from t payload request_id now =
    if refuses target.mailbox t
    then (busy, record target { mailbox = drop_message target.mailbox t })
    else (
      ok,
      signal_event
          (record target {
            mailbox =
                enqueue target.mailbox
                  (stamp target.mailbox.next_sequence from t payload request_id);
          })
          event_message now,
    )

-- The live Agent that a pid names.
unfoldable pub is_target : ℕ → Proc → Bool
is_target pid p = p.pid == pid && is_agent p

-- Delivers to the first live Agent of that pid, if there is one.
unfoldable pub deliver_to : ℕ → (Proc → Status × Proc) → List Proc → Status × List Proc
deliver_to pid f [] = (service_gone, [])
deliver_to pid f (p ∷ ps) = elim (is_target pid p) [
  | true ↦ let (s, p') = f p in (s, p' ∷ ps)
  | false ↦ let (s, ps') = deliver_to pid f ps in (s, p ∷ ps')
]

-- agent_send_message. `from` is the pid of the sender, 0 for none; a null payload is `none`.
unfoldable pub send_message : List Proc → ℕ → ℕ → ℤ → Option (List ℕ) → ℕ → ℕ → Status × List Proc
send_message procs from target_pid msg_type none request_id now = (bad_param, procs)
send_message procs from target_pid msg_type (some payload) request_id now =
    elim (message_type msg_type) [
      | none ↦ (bad_param, procs)
      | some t ↦ deliver_to target_pid (λ p. deliver p from t payload request_id now) procs
    ]

-- The message branch of agent_proc_wait: the oldest message goes out and its slot is zeroed.
unfoldable pub receive : Mailbox → Message × Mailbox
receive m =
    let msg : Message = get_or m.queue m.head blank in
    (
      msg,
      record m {
        queue = set m.queue m.head blank;
        head = (m.head + 1) % mailbox_cap;
        count = m.count - 1;
        normal_count = if is_system msg.type then m.normal_count else m.normal_count - 1;
        system_count = if is_system msg.type then m.system_count - 1 else m.system_count;
      },
    )
