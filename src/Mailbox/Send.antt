-- ===== src/Mailbox/Send.antt =====
-- What agent_send_message of kernel/agent.c guarantees: which process is touched, the reserved
-- slots, the wakeup.
use aaaos_renovation_agent_o.Prelude.{
  ℕ, ◌<◌, ◌≡◌, refl, true, false, List, [], ◌∷◌, ◌++◌, arith, All, has_bit, some, ℤ, Bool-cases,
  inl, inr, ◌≢◌,
}
use aaaos_renovation_agent_o.Proc.{
  Proc, ProcState, Status, ok, service_gone, MessageType, system, unused, used, sleeping, own_chan,
  runnable, running, zombie, is_unused, is_normal, event_message, event_filemod, event_parent_gone,
}
use aaaos_renovation_agent_o.Events.{signal_event}
use aaaos_renovation_agent_o.Events.Bits.{has-set_message}
use aaaos_renovation_agent_o.Mailbox.{
  refuses, stamp, is_target, message_type, deliver, deliver_to, send_message,
}
use aaaos_renovation_agent_o.Mailbox.Inv.{IsValid, enqueue-IsValid, drop_message-IsValid}

deliver_to-found :
    (pid : ℕ) (f : Proc → Status × Proc) (pre post : List Proc) (p : Proc)
    → All (λ q. is_target pid q ≡ false) pre
    → is_target pid p ≡ true
    → deliver_to pid f (pre ++ p ∷ post) ≡ ((f p).0, pre ++ (f p).1 ∷ post)
unfolding deliver_to
deliver_to-found pid f [] post p none_before h = rw (h, deliver_to)
deliver_to-found pid f (q ∷ pre) post p none_before h =
    rw (none_before.0, deliver_to, deliver_to-found pid f pre post p none_before.1 h)

deliver_to-missing :
    (pid : ℕ) (f : Proc → Status × Proc) (procs : List Proc)
    → All (λ q. is_target pid q ≡ false) procs
    → deliver_to pid f procs ≡ (service_gone, procs)
unfolding deliver_to
deliver_to-missing pid f [] h = refl
deliver_to-missing pid f (p ∷ procs) h = rw (h.0, deliver_to, deliver_to-missing pid f procs h.1)

-- A live Agent with the pid: its slot of the table is in use, and it is of an Agent type.
abbrev pub Bears : ℕ → Proc → Type 0
Bears pid p = (p.state ≢ unused) × (p.agent_type ≢ 0) × (p.pid ≡ pid)

Bears-is_target : (pid : ℕ) (p : Proc) → Bears pid p → is_target pid p ≡ true
unfolding is_target
Bears-is_target pid p b = ground (arith, state-in_use p.state b.0, b.1, b.2)
  where
    state-in_use : (s : ProcState) → s ≢ unused → is_unused s ≡ false
    state-in_use unused n = absurd (n refl)
    state-in_use used n = refl
    state-in_use sleeping n = refl
    state-in_use runnable n = refl
    state-in_use running n = refl
    state-in_use zombie n = refl

is_target-Bears : (pid : ℕ) (p : Proc) → is_target pid p ≡ true → Bears pid p
unfolding is_target
is_target-Bears pid p e = (
  (λ u. let n : is_unused p.state ≡ true = rw u refl in let e' : false ≡ true = ground arith in cc),
  (λ t. let n : is_normal p ≡ true = ground arith in let e' : false ≡ true = ground arith in cc),
  ground arith,
)

not-Bears : (pid : ℕ) (p : Proc) → ¬ (Bears pid p) → is_target pid p ≡ false
not-Bears pid p n = elim (Bool-cases (is_target pid p)) [
  | inr e ↦ e
  | inl e ↦ absurd (n (is_target-Bears pid p e))
]

none-Bear :
    (pid : ℕ) (ps : List Proc)
    → All (λ q. ¬ (Bears pid q)) ps
    → All (λ q. is_target pid q ≡ false) ps
none-Bear pid [] h = tt
none-Bear pid (p ∷ ps) h = (not-Bears pid p h.0, none-Bear pid ps h.1)

-- A message of either type goes to the first live Agent of the pid: the answer is that of the
-- delivery to it, and no other process changes, also not an unused slot or an ordinary process with
-- the same pid before it. Where no live Agent has the pid, nothing changes and the answer is
-- SERVICE_GONE.
pub send_message-target :
    (pre post : List Proc) (p : Proc) (from pid request_id now : ℕ) (msg_type : ℤ) (t : MessageType)
    (payload : List ℕ)
    → message_type msg_type ≡ some t
    → All (λ q. ¬ (Bears pid q)) pre
    → (Bears pid p
        → let (s, p') = deliver p from t payload request_id now in
          send_message (pre ++ p ∷ post) from pid msg_type (some payload) request_id now
          ≡ (s, pre ++ p' ∷ post))
      × (send_message pre from pid msg_type (some payload) request_id now ≡ (service_gone, pre))
unfolding send_message
send_message-target pre post p from pid request_id now msg_type t payload e none_before = (
  λ b.
      rw (e, send_message)
        (deliver_to-found pid (λ q. deliver q from t payload request_id now) pre post p
          (none-Bear pid pre none_before) (Bears-is_target pid p b)),
  rw (e, send_message)
      (deliver_to-missing pid (λ q. deliver q from t payload request_id now) pre
        (none-Bear pid pre none_before)),
)

mailbox-signal : (p : Proc) (e now : ℕ) → (signal_event p e now).mailbox ≡ p.mailbox
unfolding signal_event
mailbox-signal p e now = refl

-- A delivery, accepted or refused, keeps the mailbox of the target valid.
pub deliver-IsValid :
    (p : Proc) (from : ℕ) (t : MessageType) (payload : List ℕ) (request_id now : ℕ)
    → IsValid p.mailbox
    → IsValid (deliver p from t payload request_id now).1.mailbox
unfolding deliver
deliver-IsValid p from t payload request_id now v = elim (Bool-cases (refuses p.mailbox t)) [
  | inl e ↦ rw e (drop_message-IsValid p.mailbox t v)
  | inr e ↦ rw (e, mailbox-signal) (enqueue-IsValid p.mailbox _ v (unfold stamp in e))
]

-- While fewer than two system messages wait, a system message is accepted, however many normal
-- messages were sent.
pub deliver-system_accepted :
    (p : Proc) (from : ℕ) (payload : List ℕ) (request_id now : ℕ)
    → IsValid p.mailbox
    → p.mailbox.system_count < 2
    → (deliver p from system payload request_id now).0 ≡ ok
unfolding deliver refuses
deliver-system_accepted p from payload request_id now v h = ground (arith, v.split, v.reserved)

-- An accepted message sets the MESSAGE bit, keeps the other event bits, and makes a process that
-- sleeps in agent_wait runnable.
pub deliver-wakes :
    (p : Proc) (from : ℕ) (t : MessageType) (payload : List ℕ) (request_id now : ℕ)
    → (deliver p from t payload request_id now).0 ≡ ok
    → let p' = (deliver p from t payload request_id now).1 in
      (has_bit event_message p'.pending_events ≡ true)
      × (has_bit event_filemod p'.pending_events ≡ has_bit event_filemod p.pending_events)
      × (has_bit event_parent_gone p'.pending_events ≡ has_bit event_parent_gone p.pending_events)
      × (p.state ≡ sleeping → p.chan ≡ own_chan → p'.state ≡ runnable)
unfolding deliver signal_event
deliver-wakes p from t payload request_id now h = elim (Bool-cases (refuses p.mailbox t)) [
  | inl e ↦ absurd (ground arith)
  | inr e ↦ rw e (
    (has-set_message p.pending_events).1,
    (has-set_message p.pending_events).2,
    (has-set_message p.pending_events).3,
    λ a b. rw (a, b) refl,
  )
]
