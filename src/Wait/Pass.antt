-- ===== src/Wait/Pass.antt =====
-- What a pass of agent_proc_wait returns, and that a delivered message is never slept over.
use aaaos_renovation_agent_o.Prelude.{
  ℕ, ◌<◌, ◌≡◌, refl, sym, ap, subst, true, false, none, some, List, arith, Option-cases, inl, inr,
  ◌⊎◌, has_bit,
}
use aaaos_renovation_agent_o.Proc.{
  Proc, MessageType, event_parent_gone, event_filemod, event_heartbeat,
}
use aaaos_renovation_agent_o.Mailbox.{deliver}
use aaaos_renovation_agent_o.Wait.{
  Event, Reason, by_parent_gone, by_message, by_filemod, by_heartbeat, by_timeout, by_cancel,
  wait_reason, wait_pass, wake, is_late, sleep, resume,
}

-- Nothing of what agent_wait reports is there.
abbrev pub Idle : Proc → ℕ → Type 0
Idle p now =
    (has_bit event_parent_gone p.pending_events ≡ false)
    × (p.mailbox.count ≡ 0)
    × (has_bit event_filemod p.pending_events ≡ false)
    × (has_bit event_heartbeat p.pending_events ≡ false)
    × (is_late p now ≡ false)
    × (p.killed ≡ false)

-- The state that each reason reports
abbrev pub Holds : Proc → ℕ → Reason → Type 0
Holds p now by_parent_gone = has_bit event_parent_gone p.pending_events ≡ true
Holds p now by_message = 0 < p.mailbox.count
Holds p now by_filemod = has_bit event_filemod p.pending_events ≡ true
Holds p now by_heartbeat = has_bit event_heartbeat p.pending_events ≡ true
Holds p now by_timeout = is_late p now ≡ true
Holds p now by_cancel = p.killed ≡ true

wait_reason-Holds : (p : Proc) (now : ℕ) (r : Reason) → wait_reason p now ≡ some r → Holds p now r
unfolding wait_reason
wait_reason-Holds p now by_parent_gone e = ground arith
wait_reason-Holds p now by_message e = ground arith
wait_reason-Holds p now by_filemod e = ground arith
wait_reason-Holds p now by_heartbeat e = ground arith
wait_reason-Holds p now by_timeout e = ground arith
wait_reason-Holds p now by_cancel e = ground arith

wait_reason-Idle : (p : Proc) (now : ℕ) → wait_reason p now ≡ none → Idle p now
unfolding wait_reason
wait_reason-Idle p now e = ground arith

Idle-wait_reason : (p : Proc) (now : ℕ) → Idle p now → wait_reason p now ≡ none
unfolding wait_reason is_late
Idle-wait_reason p now (g, c, f, h, l, k) = rw (g, c, f, h, l, k) refl

wait_pass-woken :
    (p : Proc) (now : ℕ) (r : Reason)
    → wait_reason p now ≡ some r
    → wait_pass p now ≡ (some (wake p now r).0, (wake p now r).1)
unfolding wait_pass
wait_pass-woken p now r h = rw (h, wait_pass) refl

wait_pass-asleep :
    (p : Proc) (now : ℕ) → wait_reason p now ≡ none → wait_pass p now ≡ (none, sleep p)
unfolding wait_pass
wait_pass-asleep p now h = rw (h, wait_pass) refl

wake-reason : (p : Proc) (now : ℕ) (r : Reason) → (wake p now r).0.reason ≡ r
unfolding wake
wake-reason p now by_parent_gone = refl
wake-reason p now by_message = refl
wake-reason p now by_filemod = refl
wake-reason p now by_heartbeat = refl
wake-reason p now by_timeout = refl
wake-reason p now by_cancel = refl

-- A pass of agent_wait that returns reports something that is there; one that does not puts the Agent
-- to sleep on itself, and only if there is nothing to report.
pub wait_pass-cases :
    (p : Proc) (now : ℕ)
    → ((e : Event) × ((wait_pass p now).0 ≡ some e) × Holds p now e.reason)
      ⊎ (((wait_pass p now) ≡ (none, sleep p)) × Idle p now)
wait_pass-cases p now = elim (Option-cases (wait_reason p now)) [
  | inl n ↦ inr (wait_pass-asleep p now n, wait_reason-Idle p now n)
  | inr (r, h) ↦ inl (
    (wake p now r).0,
    ap (λ s. s.0) (wait_pass-woken p now r h),
    subst (Holds p now) (sym (wake-reason p now r)) (wait_reason-Holds p now r h),
  )
]

-- The Agent after the delivery and the switch back to it
abbrev pub told : Proc → ℕ → MessageType → List ℕ → ℕ → ℕ → Proc
told p from t payload request_id sent = resume (deliver (sleep p) from t payload request_id sent).1
