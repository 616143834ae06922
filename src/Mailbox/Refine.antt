-- ===== src/Mailbox/Refine.antt =====
-- The mailbox against a bounded FIFO of messages, kernel/agent.c agent_send_message and the message
-- branch of kernel/agent_loop.c agent_proc_wait.
use aaaos_renovation_agent_o.Prelude.{
  ℕ, suc, ◌+◌, ◌^◌, ◌<◌, ◌≡◌, refl, sym, ap, Bool, false, ◌||◌, List, [], ◌∷◌, ◌++◌, arith, length,
  length-append, leb, subst, ltb, if◌then◌else◌, u64, Bool-cases, inl, inr,
}
use aaaos_renovation_agent_o.Proc.{Message, MessageType, normal, system, Mailbox}
use aaaos_renovation_agent_o.Mailbox.{refuses, drop_message, stamp, enqueue, receive}
use aaaos_renovation_agent_o.Mailbox.Inv.{
  IsValid, contents, count_normal, length-window, contents-enqueue, contents-receive,
  enqueue-IsValid, receive-IsValid, drop_message-IsValid, accepts_room,
}

-- What is done with a mailbox: a message is posted, or the owner takes the oldest one.
pub data Op : Type 0 where
  post : ℕ → MessageType → List ℕ → ℕ → Op
  fetch : Op

pub data Reply : Type 0 where
  accepted refused nothing : Reply
  message : Message → Reply

-- One operation on the mailbox, as the two functions do it.
pub step : Mailbox → Op → Reply × Mailbox
step m (post from t payload request_id) =
    if refuses m t
    then (refused, drop_message m t)
    else (accepted, enqueue m (stamp m.next_sequence from t payload request_id))
step m fetch = if ltb 0 m.count then (message (receive m).0, (receive m).1) else (nothing, m)

pub run : Mailbox → List Op → List Reply
run m [] = []
run m (o ∷ os) = let (r, m') = step m o in r ∷ run m' os

-- The specification: a list, oldest first, and the number of the next message. Six normal messages
-- and eight in all are the bounds.
pub record Fifo : Type 0 where
  pub items : List Message
  pub next : ℕ

fetch_from : List Message → ℕ → Reply × Fifo
fetch_from [] n = (nothing, record { items = []; next = n })
fetch_from (x ∷ xs) n = (message x, record { items = xs; next = n })

full : Fifo → MessageType → Bool
full f normal = leb 6 (count_normal f.items) || leb 8 (length f.items)
full f system = leb 8 (length f.items)

pub fifo_step : Fifo → Op → Reply × Fifo
unfolding fetch_from full
fifo_step f (post from t payload request_id) = if full f t then (refused, f) else (
  accepted,
  record {
    items = f.items ++ stamp f.next from t payload request_id ∷ [];
    next = u64 (f.next + 1);
  },
)
fifo_step f fetch = fetch_from f.items f.next

pub fifo_run : Fifo → List Op → List Reply
fifo_run f [] = []
fifo_run f (o ∷ os) = let (r, f') = fifo_step f o in r ∷ fifo_run f' os

abbrev pub view : Mailbox → Fifo
view m = record { items = contents m; next = m.next_sequence }

length-contents : (m : Mailbox) → length (contents m) ≡ m.count
length-contents m = length-window m.queue m.head m.count

-- Every operation keeps the invariant.
pub step-IsValid : (m : Mailbox) (o : Op) → IsValid m → IsValid (step m o).1
unfolding step
step-IsValid m (post from t payload request_id) v = elim (Bool-cases (refuses m t)) [
  | inl e ↦ rw e (drop_message-IsValid m t v)
  | inr e ↦ rw e (enqueue-IsValid m _ v (unfold stamp in e))
]
step-IsValid m fetch v = elim (Bool-cases (ltb 0 m.count)) [
  | inl e ↦ rw e (receive-IsValid m v (ground arith))
  | inr e ↦ rw e v
]

refuses-full : (m : Mailbox) (t : MessageType) → IsValid m → refuses m t ≡ full (view m) t
unfolding refuses full
refuses-full m normal v = rw (← v.normals, length-contents m)
refuses-full m system v = rw (length-contents m)

view-drop : (m : Mailbox) (t : MessageType) → view (drop_message m t) ≡ view m
unfolding drop_message
view-drop m t = refl

next-enqueue :
    (m : Mailbox) (msg : Message) → (enqueue m msg).next_sequence ≡ u64 (m.next_sequence + 1)
unfolding enqueue
next-enqueue m msg = refl

next-receive : (m : Mailbox) → (receive m).1.next_sequence ≡ m.next_sequence
unfolding receive
next-receive m = refl

view-enqueue :
    (m : Mailbox) (msg : Message)
    → IsValid m
    → m.count < 8
    → view (enqueue m msg)
      ≡ record { items = contents m ++ msg ∷ []; next = u64 (m.next_sequence + 1) }
view-enqueue m msg v h =
    λ i. record { items = contents-enqueue m msg v h i; next = next-enqueue m msg i }

fetch_cons :
    (xs ys : List Message) (x : Message) (n : ℕ)
    → xs ≡ x ∷ ys
    → (message x, record { items = ys; next = n }) ≡ fetch_from xs n
unfolding fetch_from
fetch_cons xs ys x n e = rw e refl

fetch_empty :
    (xs : List Message) (n : ℕ)
    → length xs ≡ 0
    → (nothing, record { items = xs; next = n }) ≡ fetch_from xs n
unfolding fetch_from
fetch_empty [] n e = refl
fetch_empty (x ∷ xs) n e = absurd (omega arith)

-- One operation gives the reply of the specification, and leaves the mailbox holding its queue.
pub step_refines :
    (m : Mailbox) (o : Op)
    → IsValid m
    → let (r, m') = step m o in (r, view m') ≡ fifo_step (view m) o
unfolding step fifo_step
step_refines m (post from t payload request_id) v = elim (Bool-cases (refuses m t)) [
  | inl e ↦ rw (← refuses-full m t v, e, view-drop m t)
  | inr e ↦
      rw (← refuses-full m t v, e)
        (ap (λ f. (accepted, f)) (view-enqueue m _ v (accepts_room m t e)))
]
step_refines m fetch v = elim (Bool-cases (ltb 0 m.count)) [
  | inl e ↦
      rw (e, next-receive m)
        (fetch_cons (contents m) (contents (receive m).1) (receive m).0 m.next_sequence
          (contents-receive m v (ground arith)))
  | inr e ↦
      rw e (fetch_empty (contents m) m.next_sequence (omega (arith, length-contents m, ==zero m e)))
]
  where
    ==zero : (m : Mailbox) → ltb 0 m.count ≡ false → m.count ≡ 0
    ==zero m e = ground arith

-- No sequence of operations tells a valid mailbox from the bounded FIFO that it holds.
pub run_refines : (os : List Op) (m : Mailbox) → IsValid m → run m os ≡ fifo_run (view m) os
unfolding run fifo_run
run_refines [] m v = refl
run_refines (o ∷ os) m v =
    rw (← step_refines m o v, run_refines os (step m o).1 (step-IsValid m o v))

-- The last `k` messages bear the numbers below `n`, in order.
abbrev pub Numbered : List Message → ℕ → Type 0
Numbered [] n = Unit {0}
Numbered (x ∷ xs) n = (x.sequence + suc (length xs) ≡ n) × Numbered xs n

Numbered-append :
    (xs : List Message) (x : Message) (n : ℕ)
    → Numbered xs n
    → x.sequence ≡ n
    → Numbered (xs ++ x ∷ []) (suc n)
Numbered-append [] x n h e = omega arith
Numbered-append (y ∷ xs) x n h e =
    (omega (arith, h.0, length-append xs (x ∷ [])), Numbered-append xs x n h.1 e)

Numbered-fetch :
    (xs : List Message) (n : ℕ)
    → Numbered xs n
    → Numbered (fetch_from xs n).1.items (fetch_from xs n).1.next
unfolding fetch_from
Numbered-fetch [] n h = tt
Numbered-fetch (x ∷ xs) n h = h.1

-- The queued messages bear consecutive numbers, up to the next one to be given, after any operation
-- that does not exhaust the 64-bit counter.
pub fifo_step-Numbered :
    (f : Fifo) (o : Op)
    → f.next + 1 < 2 ^ 64
    → Numbered f.items f.next
    → Numbered (fifo_step f o).1.items (fifo_step f o).1.next
unfolding fifo_step stamp
fifo_step-Numbered f (post from t payload request_id) b h = elim (Bool-cases (full f t)) [
  | inl e ↦ rw e h
  | inr e ↦ rw e (
      let n : u64 (f.next + 1) ≡ suc f.next = omega arith in
      rw n (Numbered-append f.items _ f.next h refl))
]
fifo_step-Numbered f fetch b h = Numbered-fetch f.items f.next h

-- A mailbox numbers what it queues consecutively, and gives it out in that order.
pub step-Numbered :
    (m : Mailbox) (o : Op)
    → IsValid m
    → m.next_sequence + 1 < 2 ^ 64
    → Numbered (contents m) m.next_sequence
    → Numbered (contents (step m o).1) (step m o).1.next_sequence
step-Numbered m o v b h =
    let e = ap (λ q. q.1) (step_refines m o v) in
    subst (λ f. Numbered f.items f.next) (sym e) (fifo_step-Numbered (view m) o b h)
