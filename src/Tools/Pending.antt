-- ===== src/Tools/Pending.antt =====
-- A request that waits for its answer, and what the other processes can do to it.
pub mod Answer
use mathlib.Core.Option
use aaaos_renovation_agent_o.Prelude.{
  ℕ, zero, suc, ◌+◌, ◌-◌, ◌≤◌, ◌<◌, ◌^◌, ◌≡◌, ◌≢◌, refl, sym, ap, ◌∙◌, subst, Bool, true, false,
  ◌&&◌, ◌||◌, not, Option, none, some, List, [], ◌∷◌, arith, ◌==◌, if◌then◌else◌, leb, take, length,
  set, get_or, get_or-set_self, get_or-set_ne, map, ℤ, Bool-cases, Option-cases, inl, inr, ◌⊎◌,
}
use aaaos_renovation_agent_o.Proc.{Proc, is_normal}
use aaaos_renovation_agent_o.Tools.{
  Tool, Request, Runtime, no_request, find_tool, has_cap, same_group_or_public,
}
use aaaos_renovation_agent_o.Tools.Requests.{
  next_id, new_request, free_slot, Begun, refused, queued, enqueue_request, call_found, call_begin,
  clear_slot, slot_of, call_pass, awaits, find_awaiting, deliver_first, tool_recv, is_asked,
  answered, reply_first, tool_reply, called_by, awaited_from, abandon, exit_runtime,
}

-- What identifies a request: whether its slot is used, its id, its caller and its service
abbrev pub key : Request → Bool × ℕ × ℕ × ℕ
key r = (r.used, r.id, r.caller_pid, r.service_pid)

abbrev pub at : List Request → ℕ → Request
at rs i = get_or rs i no_request

key_head :
    (x r : Request) (rs : List Request) (i : ℕ)
    → key x ≡ key r
    → key (at (x ∷ rs) i) ≡ key (at (r ∷ rs) i)
key_head x r rs zero e = e
key_head x r rs (suc i) e = refl

key_tail :
    (r : Request) (ts rs : List Request) (i : ℕ)
    → ((j : ℕ) → key (at ts j) ≡ key (at rs j))
    → key (at (r ∷ ts) i) ≡ key (at (r ∷ rs) i)
key_tail r ts rs zero e = refl
key_tail r ts rs (suc i) e = e i

key-deliver_first :
    (pid : ℕ) (rs : List Request) (i : ℕ) → key (at (deliver_first pid rs) i) ≡ key (at rs i)
unfolding deliver_first
key-deliver_first pid [] i = refl
key-deliver_first pid (r ∷ rs) i = elim (Bool-cases (awaits pid r)) [
  | inl e ↦ rw e (key_head (record r { delivered = true }) r rs i refl)
  | inr e ↦ rw e (key_tail r (deliver_first pid rs) rs i (λ j. key-deliver_first pid rs j))
]

key-reply_first :
    (pid id : ℕ) (result : List ℕ) (status : ℤ) (rs rs' : List Request) (i : ℕ)
    → reply_first pid id result status rs ≡ some rs'
    → key (at rs' i) ≡ key (at rs i)
unfolding reply_first
key-reply_first pid id result status [] rs' i h = absurd (cc)
key-reply_first pid id result status (r ∷ rs) rs' i h = elim (Bool-cases (is_asked pid id r)) [
  | inl e ↦
      let b : rs' ≡ answered status result r ∷ rs = (let h' = rw e at h in cc) in
      rw b (key_head (answered status result r) r rs i refl)
  | inr e ↦ elim (Option-cases (reply_first pid id result status rs)) [
    | inl n ↦ absurd (let h' : none ≡ some rs' = rw (e, n) at h in cc)
    | inr (ts, n) ↦
        let b : rs' ≡ r ∷ ts = (let h' = rw (e, n) at h in cc) in
        rw b (key_tail r ts rs i (λ j. key-reply_first pid id result status rs ts j n))
  ]
]

pub at-abandon :
    (pid : ℕ) (rs : List Request) (i : ℕ) → at (map (abandon pid) rs) i ≡ abandon pid (at rs i)
unfolding abandon called_by awaited_from
at-abandon pid [] i = refl
at-abandon pid (r ∷ rs) zero = refl
at-abandon pid (r ∷ rs) (suc i) = at-abandon pid rs i

called_by_pid : (pid : ℕ) (r : Request) → called_by pid r ≡ true → r.caller_pid ≡ pid
unfolding called_by
called_by_pid pid r e = ground arith

-- The exit of a process leaves a used slot of another caller, and makes none.
abandon-key :
    (pid : ℕ) (r : Request)
    → (r.used ≡ true → r.caller_pid ≢ pid → key (abandon pid r) ≡ key r)
      × ((abandon pid r).used ≡ true → (r.used ≡ true) × ((abandon pid r).id ≡ r.id))
unfolding abandon
abandon-key pid r = elim (Bool-cases (called_by pid r)) [
  | inl e ↦ rw e (λ u n. absurd (n (called_by_pid pid r e)), λ u. absurd (cc))
  | inr e ↦ elim (Bool-cases (awaited_from pid r)) [
    | inl f ↦ rw (e, f) (λ u n. refl, λ u. (u, refl))
    | inr f ↦ rw (e, f) (λ u n. refl, λ u. (u, refl))
  ]
]

pub free_slot-unused :
    (k i : ℕ) (rs : List Request)
    → free_slot k rs ≡ some i
    → (j : ℕ) × (i ≡ k + j) × (j < length rs) × ((at rs j).used ≡ false)
unfolding free_slot
free_slot-unused k i [] h = absurd (cc)
free_slot-unused k i (r ∷ rs) h = elim (Bool-cases r.used) [
  | inl e ↦
      let s = free_slot-unused (k + 1) i rs (rw e at h) in
      (suc s.0, omega (arith, s.1), omega (arith, s.2), s.3)
  | inr e ↦
      let h' : some k ≡ some i = rw e at h in let y : k ≡ i = cc in (0, omega arith, omega arith, e)
]

-- The slot `i` holds the request `k` of the caller `c` to the service `s`, and no other slot has its id.
abbrev pub Waiting : ℕ → ℕ → ℕ → ℕ → Runtime → Type 0
Waiting i k c s rt =
    (key (at rt.requests i) ≡ (true, k, c, s))
    × (k < rt.next_request_id)
    × ((j : ℕ) → j ≢ i → (at rt.requests j).used ≡ true → (at rt.requests j).id ≢ k)

-- What a process does with the queue
pub data Op : Type 0 where
  begins : Proc → List ℕ → List ℕ → Op
  passes : Bool → ℕ → ℕ → Op
  recvs : Bool → Proc → Op
  replies : Proc → ℕ → List ℕ → ℤ → Op
  exits : ℕ → Op

unfoldable pub run : Op → Runtime → Runtime
run (begins p name params) rt = (call_begin p name params rt).1
run (passes killed i id) rt = (call_pass killed i id rt).1
run (recvs killed p) rt = (tool_recv killed p rt).1
run (replies p id result status) rt = (tool_reply p id result status rt).1
run (exits pid) rt = exit_runtime pid rt

-- It is not the caller's: neither its pass over the slot nor its exit.
abbrev pub Foreign : ℕ → ℕ → Op → Type 0
Foreign i c (begins p name params) = Unit {0}
Foreign i c (passes killed j id) = j ≢ i
Foreign i c (recvs killed p) = Unit {0}
Foreign i c (replies p id result status) = Unit {0}
Foreign i c (exits pid) = c ≢ pid

same_keys-Waiting :
    (i k c s : ℕ) (rt : Runtime) (rs : List Request)
    → ((j : ℕ) → key (at rs j) ≡ key (at rt.requests j))
    → Waiting i k c s rt
    → Waiting i k c s (record rt { requests = rs })
same_keys-Waiting i k c s rt rs e w = (
  e i ∙ w.0,
  w.1,
  λ j n u h. w.2 j n (sym (ap (λ x. x.0) (e j)) ∙ u) (sym (ap (λ x. x.1) (e j)) ∙ h),
)

pub next_id_eq : (n : ℕ) → n + 1 < 2 ^ 31 → next_id n ≡ n + 1
unfolding next_id
next_id_eq n b = let e : leb (2 ^ 31 - 1) n ≡ false = ground arith in rw e refl

place-Waiting :
    (i k c s m : ℕ) (r : Request) (rt : Runtime)
    → rt.next_request_id + 1 < 2 ^ 31
    → m < length rt.requests
    → (at rt.requests m).used ≡ false
    → r.id ≡ rt.next_request_id
    → Waiting i k c s rt
    → Waiting i k c s
        (record rt { requests = set rt.requests m r; next_request_id = next_id rt.next_request_id })
place-Waiting i k c s m r rt b l u e w =
    let n : m ≢ i = λ y. absurd (
      let z : (at rt.requests i).used ≡ false = ap (λ x. (at rt.requests x).used) (sym y) ∙ u in
      let v : (at rt.requests i).used ≡ true = ap (λ x. x.0) w.0 in cc) in
    (
      ap key (get_or-set_ne rt.requests m i r no_request n) ∙ w.0,
      omega (arith, w.1, next_id_eq rt.next_request_id b),
      λ j ne v. elim (Bool-cases (m == j)) [
        | inl y ↦
            let y' : m ≡ j = ground arith in
            let q : at (set rt.requests m r) j ≡ r =
              ap (at (set rt.requests m r)) (sym y')
              ∙ get_or-set_self rt.requests m r no_request l in
            λ h. absurd (omega (arith, w.1, sym (ap (λ x. x.id) q) ∙ h, e))
        | inr y ↦
            let q : at (set rt.requests m r) j ≡ at rt.requests j =
              get_or-set_ne rt.requests m j r no_request (ground arith) in
            λ h. w.2 j ne (sym (ap (λ x. x.used) q) ∙ v) (sym (ap (λ x. x.id) q) ∙ h)
      ],
    )

enqueue-Waiting :
    (i k c s : ℕ) (p : Proc) (t : Tool) (name params : List ℕ) (rt : Runtime) (o : Option ℕ)
    → free_slot 0 rt.requests ≡ o
    → rt.next_request_id + 1 < 2 ^ 31
    → Waiting i k c s rt
    → Waiting i k c s (enqueue_request p t name params rt o).1
unfolding enqueue_request
enqueue-Waiting i k c s p t name params rt none f b w = w
enqueue-Waiting i k c s p t name params rt (some m) f b w =
    let r = free_slot-unused 0 m rt.requests f in
    let y : r.0 ≡ m = omega (arith, r.1) in
    place-Waiting i k c s m (new_request p t name params rt.next_request_id) rt b
      (omega (arith, r.2)) (ap (λ x. (at rt.requests x).used) (sym y) ∙ r.3) refl w

found-Waiting :
    (i k c s : ℕ) (p : Proc) (name params : List ℕ) (rt : Runtime) (o : Option Tool)
    → rt.next_request_id + 1 < 2 ^ 31
    → Waiting i k c s rt
    → Waiting i k c s (call_found p name params rt o).1
unfolding call_found
found-Waiting i k c s p name params rt none b w = w
found-Waiting i k c s p name params rt (some t) b w = elim (Bool-cases (has_cap p t.required_cap)) [
  | inr e ↦ rw e w
  | inl e ↦ elim (Bool-cases (same_group_or_public p t.owner_group t.flags)) [
    | inr f ↦ rw (e, f) w
    | inl f ↦
        rw (e, f) (enqueue-Waiting i k c s p t name params rt (free_slot 0 rt.requests) refl b w)
  ]
]

cleared_used :
    (rs : List Request) (j m : ℕ)
    → (at (set rs j no_request) m).used ≡ true
    → ((at rs m).used ≡ true) × ((at (set rs j no_request) m).id ≡ (at rs m).id)
cleared_used [] j m u = absurd (cc)
cleared_used (r ∷ rs) zero zero u = absurd (cc)
cleared_used (r ∷ rs) zero (suc m) u = (u, refl)
cleared_used (r ∷ rs) (suc j) zero u = (u, refl)
cleared_used (r ∷ rs) (suc j) (suc m) u = cleared_used rs j m u

clear-Waiting :
    (i k c s j : ℕ) (rt : Runtime) → j ≢ i → Waiting i k c s rt → Waiting i k c s (clear_slot j rt)
clear-Waiting i k c s j rt n w = (
  ap key (get_or-set_ne rt.requests j i no_request no_request n) ∙ w.0,
  w.1,
  λ m ne u h. let r = cleared_used rt.requests j m u in w.2 m ne r.0 (sym r.1 ∙ h),
)

pass-Waiting :
    (i k c s j id : ℕ) (killed : Bool) (rt : Runtime)
    → j ≢ i
    → Waiting i k c s rt
    → Waiting i k c s (call_pass killed j id rt).1
unfolding call_pass
pass-Waiting i k c s j id killed rt n w = elim (Bool-cases (slot_of j rt).replied) [
  | inl e ↦ rw e (clear-Waiting i k c s j rt n w)
  | inr e ↦ elim (Bool-cases killed) [
    | inl f ↦ rw (e, f) (clear-Waiting i k c s j rt n w)
    | inr f ↦ elim (Bool-cases (not ((slot_of j rt).id == id) || not (slot_of j rt).used)) [
      | inl g ↦ rw (e, f, g) w
      | inr g ↦ rw (e, f, g) w
    ]
  ]
]

exit-Waiting :
    (i k c s pid : ℕ) (rt : Runtime)
    → c ≢ pid
    → Waiting i k c s rt
    → Waiting i k c s (exit_runtime pid rt)
unfolding exit_runtime
exit-Waiting i k c s pid rt n w =
    let u : (at rt.requests i).used ≡ true = ap (λ x. x.0) w.0 in
    let l : (at rt.requests i).caller_pid ≡ c = ap (λ x. x.2) w.0 in
    (
      ap key (at-abandon pid rt.requests i)
          ∙ (abandon-key pid (at rt.requests i)).0 u (λ e. n (sym l ∙ e))
          ∙ w.0,
      w.1,
      λ m ne v h.
          let q = at-abandon pid rt.requests m in
          let r = (abandon-key pid (at rt.requests m)).1 (sym (ap (λ x. x.used) q) ∙ v) in
          w.2 m ne r.0 (sym r.1 ∙ sym (ap (λ x. x.id) q) ∙ h),
    )

recv-Waiting :
    (i k c s : ℕ) (killed : Bool) (p : Proc) (rt : Runtime)
    → Waiting i k c s rt
    → Waiting i k c s (tool_recv killed p rt).1
unfolding tool_recv
recv-Waiting i k c s killed p rt w = elim (Bool-cases (is_normal p)) [
  | inl e ↦ rw e w
  | inr e ↦ elim (Option-cases (find_awaiting p.pid rt.requests)) [
    | inr (r, n) ↦
        rw (e, tool_recv, n)
          (same_keys-Waiting i k c s rt (deliver_first p.pid rt.requests)
            (λ j. key-deliver_first p.pid rt.requests j) w)
    | inl n ↦ elim (Bool-cases killed) [
      | inl f ↦ rw (e, tool_recv, n, f) w
      | inr f ↦ rw (e, tool_recv, n, f) w
    ]
  ]
]

reply-Waiting :
    (i k c s id : ℕ) (p : Proc) (result : List ℕ) (status : ℤ) (rt : Runtime)
    → Waiting i k c s rt
    → Waiting i k c s (tool_reply p id result status rt).1
unfolding tool_reply
reply-Waiting i k c s id p result status rt w = elim (Bool-cases (is_normal p)) [
  | inl e ↦ rw e w
  | inr e ↦ elim (Option-cases (reply_first p.pid id result status rt.requests)) [
    | inl n ↦ rw (e, tool_reply, n) w
    | inr (rs, n) ↦
        rw (e, tool_reply, n)
          (same_keys-Waiting i k c s rt rs
            (λ j. key-reply_first p.pid id result status rt.requests rs j n) w)
  ]
]

-- Whatever another process does leaves a waiting request in its slot, with its id, its caller and its
-- service, and the id stays the only one of its kind; the counter of ids does not wrap around.
pub run-Waiting :
    (i k c s : ℕ) (op : Op) (rt : Runtime)
    → rt.next_request_id + 1 < 2 ^ 31
    → Foreign i c op
    → Waiting i k c s rt
    → Waiting i k c s (run op rt)
unfolding run call_begin
run-Waiting i k c s (begins p name params) rt b f w =
    found-Waiting i k c s p name params rt (find_tool name rt.tools) b w
run-Waiting i k c s (passes killed j id) rt b f w = pass-Waiting i k c s j id killed rt f w
run-Waiting i k c s (recvs killed p) rt b f w = recv-Waiting i k c s killed p rt w
run-Waiting i k c s (replies p id result status) rt b f w =
    reply-Waiting i k c s id p result status rt w
run-Waiting i k c s (exits pid) rt b f w = exit-Waiting i k c s pid rt f w
