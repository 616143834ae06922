-- ===== src/Mailbox/Inv.antt =====
-- The representation invariant of struct agent_mailbox, and the queue that a valid mailbox holds.
use aaaos_renovation_agent_o.Prelude.{
  ℕ, zero, suc, ◌+◌, ◌-◌, ◌%◌, ◌≤◌, ◌<◌, ◌≡◌, refl, sym, ap, ap₂, ◌∙◌, false, List, [], ◌∷◌, ◌++◌,
  arith, length, get_or, set, length-set, get_or-set_self, get_or-set_ne,
}
use aaaos_renovation_agent_o.Proc.{Message, MessageType, normal, system, Mailbox}
use aaaos_renovation_agent_o.Mailbox.{blank, empty, refuses, drop_message, enqueue, receive}

-- The `n` messages from slot `h` on, going round at 8.
abbrev pub window : List Message → ℕ → ℕ → List Message
window q h zero = []
window q h (suc n) = get_or q h blank ∷ window q ((h + 1) % 8) n

abbrev pub contents : Mailbox → List Message
contents m = window m.queue m.head m.count

abbrev pub count_normal : List Message → ℕ
count_normal [] = 0
count_normal (x ∷ xs) = elim x.type [ normal ↦ suc (count_normal xs) | system ↦ count_normal xs ]

pub record IsValid (m : Mailbox) : Type 0 where
  pub slots : length m.queue ≡ 8
  pub head_in : m.head < 8
  pub tail_at : m.tail ≡ (m.head + m.count) % 8
  pub count_le : m.count ≤ 8
  pub split : m.normal_count + m.system_count ≡ m.count
  pub reserved : m.normal_count ≤ 6
  pub normals : m.normal_count ≡ count_normal (contents m)

pub length-window : (q : List Message) (h n : ℕ) → length (window q h n) ≡ n
length-window q h zero = refl
length-window q h (suc n) = ap suc (length-window q ((h + 1) % 8) n)

-- One more slot is one more message at the end.
pub window-suc :
    (q : List Message) (h n : ℕ)
    → h < 8
    → window q h (suc n) ≡ window q h n ++ get_or q ((h + n) % 8) blank ∷ []
window-suc q h zero p = ap (λ i. get_or q i blank ∷ []) (omega arith)
window-suc q h (suc n) p = ap (◌∷◌ (get_or q h blank)) (
    window-suc q ((h + 1) % 8) n (omega arith)
    ∙ ap (λ i. window q ((h + 1) % 8) n ++ get_or q i blank ∷ []) (omega arith))

-- A write to a slot that the window does not reach leaves it.
pub window-set :
    (q : List Message) (h n i : ℕ) (v : Message)
    → h < 8
    → i < 8
    → n ≤ (i + 8 - h) % 8
    → window (set q i v) h n ≡ window q h n
window-set q h zero i v p r d = refl
window-set q h (suc n) i v p r d =
    ap₂ ◌∷◌ (get_or-set_ne q i h v blank (omega arith))
      (window-set q ((h + 1) % 8) n i v (omega arith) (omega arith) (omega arith))

pub count_normal-append :
    (xs ys : List Message) → count_normal (xs ++ ys) ≡ count_normal xs + count_normal ys
count_normal-append [] ys = omega arith
count_normal-append (x ∷ xs) ys = ground (arith, count_normal-append xs ys)

pub empty-IsValid : IsValid empty
empty-IsValid = omega arith

-- What an enqueue writes is the last message of the new window, the others stay.
pub contents-enqueue :
    (m : Mailbox) (msg : Message)
    → IsValid m
    → m.count < 8
    → contents (enqueue m msg) ≡ contents m ++ msg ∷ []
unfolding enqueue
contents-enqueue m msg v h =
    ap (window q' m.head) {y = suc m.count} (omega arith)
    ∙ window-suc q' m.head m.count v.head_in
    ∙ ap₂ (λ xs x. xs ++ x ∷ [])
        (window-set m.queue m.head m.count m.tail msg v.head_in (omega (arith, v.tail_at))
          (omega (arith, v.tail_at, v.head_in)))
        (ap (λ i. get_or q' i blank) (sym v.tail_at)
          ∙ get_or-set_self m.queue m.tail msg blank (omega (arith, v.tail_at, v.slots)))
  where
    q' : List Message
    q' = set m.queue m.tail msg

-- The message that goes out is the first one, the others stay in their order.
pub contents-receive :
    (m : Mailbox) → IsValid m → 0 < m.count → contents m ≡ (receive m).0 ∷ contents (receive m).1
unfolding receive
contents-receive m v h =
    ap (window m.queue m.head) {y = suc (m.count - 1)} (omega arith)
    ∙ ap (◌∷◌ (get_or m.queue m.head blank)) (
        sym (
          window-set m.queue ((m.head + 1) % 8) (m.count - 1) m.head blank (omega arith) v.head_in
            (omega (arith, v.head_in, v.count_le))))

-- A mailbox that accepts has a slot left, and room for a normal message if it is one.
pub accepts_room : (m : Mailbox) (t : MessageType) → refuses m t ≡ false → m.count < 8
unfolding refuses
accepts_room m normal h = ground arith
accepts_room m system h = ground arith

accepts_normal : (m : Mailbox) → refuses m normal ≡ false → m.normal_count < 6
unfolding refuses
accepts_normal m h = ground arith

normals-enqueue :
    (m : Mailbox) (msg : Message)
    → IsValid m
    → m.count < 8
    → count_normal (contents (enqueue m msg)) ≡ m.normal_count + count_normal (msg ∷ [])
normals-enqueue m msg v h =
    ap count_normal (contents-enqueue m msg v h)
    ∙ count_normal-append (contents m) (msg ∷ [])
    ∙ ap (λ n. n + count_normal (msg ∷ [])) (sym v.normals)

enqueue_of_type :
    (m : Mailbox) (msg : Message) (t : MessageType)
    → msg.type ≡ t
    → IsValid m
    → refuses m t ≡ false
    → IsValid (enqueue m msg)
unfolding enqueue
enqueue_of_type m msg normal e v h =
    let room = accepts_room m normal h in
    let n = normals-enqueue m msg v room in
    ground (arith, n, length-set m.queue m.tail msg, accepts_normal m h)
enqueue_of_type m msg system e v h =
    let room = accepts_room m system h in
    let n = normals-enqueue m msg v room in ground (arith, n, length-set m.queue m.tail msg)

-- An accepted message keeps the invariant.
pub enqueue-IsValid :
    (m : Mailbox) (msg : Message) → IsValid m → refuses m msg.type ≡ false → IsValid (enqueue m msg)
enqueue-IsValid m msg = enqueue_of_type m msg msg.type refl

count_normal-cons_normal :
    (x : Message) (xs : List Message)
    → x.type ≡ normal
    → count_normal (x ∷ xs) ≡ suc (count_normal xs)
count_normal-cons_normal x xs e = rw e

count_normal-cons_system :
    (x : Message) (xs : List Message) → x.type ≡ system → count_normal (x ∷ xs) ≡ count_normal xs
count_normal-cons_system x xs e = rw e

pub count_normal-le : (xs : List Message) → count_normal xs ≤ length xs
count_normal-le [] = omega arith
count_normal-le (x ∷ xs) = ground (arith, count_normal-le xs)

-- The rest of the queue holds at most `count - 1` normal messages.
normals-rest : (m : Mailbox) → count_normal (contents (receive m).1) ≤ m.count - 1
unfolding receive
normals-rest m = omega (
  arith,
  count_normal-le (contents (receive m).1),
  length-window (receive m).1.queue (receive m).1.head (m.count - 1),
)

receive_of_type :
    (m : Mailbox) (t : MessageType)
    → (receive m).0.type ≡ t
    → IsValid m
    → 0 < m.count
    → IsValid (receive m).1
unfolding receive
receive_of_type m normal e v h =
    let n =
      v.normals
      ∙ ap count_normal (contents-receive m v h)
      ∙ count_normal-cons_normal (receive m).0 (contents (receive m).1) e in
    ground (arith, n, length-set m.queue m.head blank)
receive_of_type m system e v h =
    let n =
      v.normals
      ∙ ap count_normal (contents-receive m v h)
      ∙ count_normal-cons_system (receive m).0 (contents (receive m).1) e in
    ground (arith, n, length-set m.queue m.head blank, normals-rest m)

-- So does taking a message out.
pub receive-IsValid : (m : Mailbox) → IsValid m → 0 < m.count → IsValid (receive m).1
receive-IsValid m v h = receive_of_type m (receive m).0.type refl v h

-- So do the counters of a refused message.
pub drop_message-IsValid : (m : Mailbox) (t : MessageType) → IsValid m → IsValid (drop_message m t)
unfolding drop_message
drop_message-IsValid m t v = ground arith
