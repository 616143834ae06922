-- ===== src/Tools/Pending/Answer.antt =====
-- A call of a dynamic tool is answered by its service, or by the end of its service.
use aaaos_renovation_agent_o.Prelude.{
  ℕ, zero, suc, ◌+◌, ◌<◌, ◌^◌, ◌≡◌, ◌≢◌, refl, sym, ap, ◌∙◌, Bool, true, false, some, List, [], ◌∷◌,
  arith, ◌==◌, take, length, set, get_or-set_self, get_or-set_ne, ℤ, Bool-cases, inl, inr,
}
use aaaos_renovation_agent_o.Proc.{Proc, ok, is_normal}
use aaaos_renovation_agent_o.Text.{codes}
use aaaos_renovation_agent_o.Files.{tool_resp_set}
use aaaos_renovation_agent_o.Tools.{
  Tool, Request, Runtime, no_request, find_tool, has_cap, same_group_or_public, err_service_gone,
}
use aaaos_renovation_agent_o.Tools.Requests.{
  new_request, free_slot, enqueue_request, call_found, call_begin, call_pass, is_asked, answered,
  reply_first, tool_reply, called_by, awaited_from, abandon, exit_runtime,
}
use aaaos_renovation_agent_o.Tools.Pending.{
  at, key, Waiting, Op, run, Foreign, run-Waiting, free_slot-unused, next_id_eq, at-abandon,
}

-- The ids of the requests in the queue have been given out.
abbrev pub Given : Runtime → Type 0
Given rt = (j : ℕ) → (at rt.requests j).used ≡ true → (at rt.requests j).id < rt.next_request_id

call_begin-Waiting :
    (p : Proc) (name params : List ℕ) (rt : Runtime) (t : Tool) (i : ℕ)
    → Given rt
    → rt.next_request_id + 1 < 2 ^ 31
    → find_tool name rt.tools ≡ some t
    → has_cap p t.required_cap ≡ true
    → same_group_or_public p t.owner_group t.flags ≡ true
    → free_slot 0 rt.requests ≡ some i
    → Waiting i rt.next_request_id p.pid t.owner_pid (call_begin p name params rt).1
unfolding call_begin call_found enqueue_request
call_begin-Waiting p name params rt t i g b f c m s =
    let z = free_slot-unused 0 i rt.requests s in
    let l : i < length rt.requests = omega (arith, z.1, z.2) in
    let r : Request = new_request p t name params rt.next_request_id in
    rw (f, call_found, c, m, s)
      (
        ap key (get_or-set_self rt.requests i r no_request l),
        omega (arith, next_id_eq rt.next_request_id b),
        λ j n u h.
            let q : at (set rt.requests i r) j ≡ at rt.requests j =
              get_or-set_ne rt.requests i j r no_request (λ e. n (sym e)) in
            absurd (omega (arith, g j (sym (ap (λ x. x.used) q) ∙ u), sym (ap (λ x. x.id) q) ∙ h)),
      )

not_asked : (pid id : ℕ) → is_asked pid id no_request ≡ false
unfolding is_asked
not_asked pid id = refl

-- The reply goes into the slot that is asked, if no slot before it is.
reply_first-at :
    (pid id : ℕ) (result : List ℕ) (status : ℤ) (rs : List Request) (i : ℕ)
    → is_asked pid id (at rs i) ≡ true
    → ((j : ℕ) → j ≢ i → is_asked pid id (at rs j) ≡ false)
    → (rs' : List Request) × (reply_first pid id result status rs ≡ some rs')
      × (at rs' i ≡ answered status result (at rs i))
unfolding reply_first
reply_first-at pid id result status [] i a n =
    absurd (let h : is_asked pid id no_request ≡ false = not_asked pid id in cc)
reply_first-at pid id result status (r ∷ rs) zero a n =
    rw a (answered status result r ∷ rs, refl, refl)
reply_first-at pid id result status (r ∷ rs) (suc i) a n =
    let h : (rs' : List Request) × (reply_first pid id result status rs ≡ some rs')
        × (at rs' i ≡ answered status result (at rs i)) =
      reply_first-at pid id result status rs i a (λ j m. n (suc j) (λ e. m (omega (arith, e)))) in
    rw (n 0 (λ e. absurd (omega (arith, e))), h.1) (r ∷ h.0, refl, h.2)

asked : (k c s : ℕ) (r : Request) → key r ≡ (true, k, c, s) → is_asked s k r ≡ true
unfolding is_asked
asked k c s r e =
    let u : r.used ≡ true = ap (λ x. x.0) e in
    let a : (r.id == k) ≡ true = ground (arith, ap (λ x. x.1) e) in
    let b : (r.service_pid == s) ≡ true = ground (arith, ap (λ x. x.3) e) in rw (u, a, b) refl

other_asked : (pid k : ℕ) (r : Request) → (r.used ≡ true → r.id ≢ k) → is_asked pid k r ≡ false
unfolding is_asked
other_asked pid k r n = elim (Bool-cases r.used) [
  | inr e ↦ rw e refl
  | inl e ↦ let d : r.id ≢ k = n e in let a : (r.id == k) ≡ false = ground arith in rw (e, a) refl
]

-- The operations of others, with the counter of ids below its end before each
abbrev pub Calm : ℕ → ℕ → List Op → Runtime → Type 0
Calm i c [] rt = Unit {0}
Calm i c (op ∷ ops) rt =
    (rt.next_request_id + 1 < 2 ^ 31) × Foreign i c op × Calm i c ops (run op rt)

abbrev pub run_all : List Op → Runtime → Runtime
run_all [] rt = rt
run_all (op ∷ ops) rt = run_all ops (run op rt)

run_all-Waiting :
    (i k c s : ℕ) (ops : List Op) (rt : Runtime)
    → Calm i c ops rt
    → Waiting i k c s rt
    → Waiting i k c s (run_all ops rt)
run_all-Waiting i k c s [] rt h w = w
run_all-Waiting i k c s (op ∷ ops) rt h w =
    run_all-Waiting i k c s ops (run op rt) h.2 (run-Waiting i k c s op rt h.0 h.1 w)

replied_pass :
    (killed : Bool) (i id : ℕ) (rt : Runtime)
    → (at rt.requests i).replied ≡ true
    → (call_pass killed i id rt).0
      ≡ some (tool_resp_set (at rt.requests i).status (at rt.requests i).result)
unfolding call_pass
replied_pass killed i id rt e = rw e refl

reply-Waiting_pass :
    (i k c s : ℕ) (q : Proc) (result : List ℕ) (status : ℤ) (killed : Bool) (rt : Runtime)
    → Waiting i k c s rt
    → is_normal q ≡ false
    → q.pid ≡ s
    → ((tool_reply q k result status rt).0 ≡ ok)
      × ((call_pass killed i k (tool_reply q k result status rt).1).0
          ≡ some (tool_resp_set status (take 511 result)))
unfolding tool_reply
reply-Waiting_pass i k c s q result status killed rt w a e =
    let r =
      reply_first-at q.pid k result status rt.requests i
        (ap (λ x. is_asked x k (at rt.requests i)) e ∙ asked k c s (at rt.requests i) w.0)
        (λ j n. other_asked q.pid k (at rt.requests j) (λ u h. w.2 j n u h)) in
    rw (a, tool_reply, r.1)
      (
        refl,
        replied_pass killed i k (record rt { requests = r.0 }) (ap (λ x. x.replied) r.2)
            ∙ ap (λ (x : Request). some (tool_resp_set x.status x.result)) r.2,
      )

-- An Agent calls a dynamic tool, may call it, and finds a free slot. After any operations of others,
-- other calls and their ends, deliveries, replies and exits, a reply of the tool's service to the
-- request succeeds, and the next pass of the call returns its status and its result, cut to 511 bytes.
pub call_begin-answered :
    (p q : Proc) (name params result : List ℕ) (status : ℤ) (killed : Bool) (rt : Runtime)
    (t : Tool) (i : ℕ) (ops : List Op)
    → Given rt
    → rt.next_request_id + 1 < 2 ^ 31
    → find_tool name rt.tools ≡ some t
    → has_cap p t.required_cap ≡ true
    → same_group_or_public p t.owner_group t.flags ≡ true
    → free_slot 0 rt.requests ≡ some i
    → Calm i p.pid ops (call_begin p name params rt).1
    → is_normal q ≡ false
    → q.pid ≡ t.owner_pid
    → let rt' = run_all ops (call_begin p name params rt).1 in
      ((tool_reply q rt.next_request_id result status rt').0 ≡ ok)
      × ((call_pass killed i rt.next_request_id
            (tool_reply q rt.next_request_id result status rt').1).0
          ≡ some (tool_resp_set status (take 511 result)))
call_begin-answered p q name params result status killed rt t i ops g b f c m s h a e =
    let rt1 = (call_begin p name params rt).1 in
    reply-Waiting_pass i rt.next_request_id p.pid t.owner_pid q result status killed
      (run_all ops rt1)
      (run_all-Waiting i rt.next_request_id p.pid t.owner_pid ops rt1 h
        (call_begin-Waiting p name params rt t i g b f c m s))
      a e

not_caller : (pid : ℕ) (r : Request) → r.caller_pid ≢ pid → called_by pid r ≡ false
unfolding called_by
not_caller pid r n = elim (Bool-cases r.used) [
  | inr e ↦ rw e refl
  | inl e ↦ let a : (r.caller_pid == pid) ≡ false = ground arith in rw (e, a) refl
]

is_awaited :
    (pid : ℕ) (r : Request)
    → r.used ≡ true
    → r.service_pid ≡ pid
    → r.replied ≡ false
    → awaited_from pid r ≡ true
unfolding awaited_from
is_awaited pid r u v f = let a : (r.service_pid == pid) ≡ true = ground arith in rw (u, a, f) refl

exit-at :
    (pid : ℕ) (rt : Runtime) (i : ℕ)
    → at (exit_runtime pid rt).requests i ≡ abandon pid (at rt.requests i)
unfolding exit_runtime
exit-at pid rt i = at-abandon pid rt.requests i

gone :
    (k c s : ℕ) (r : Request)
    → key r ≡ (true, k, c, s)
    → c ≢ s
    → r.replied ≡ false
    → abandon s r ≡ answered err_service_gone (codes "tool service exited") r
unfolding abandon
gone k c s r e n f =
    let l : r.caller_pid ≡ c = ap (λ x. x.2) e in
    let v : r.service_pid ≡ s = ap (λ x. x.3) e in
    let u : r.used ≡ true = ap (λ x. x.0) e in
    rw (not_caller s r (λ y. n (sym l ∙ y)), is_awaited s r u v f) refl

-- If the service of a waiting request exits before it replies, the next pass of the call answers
-- AGENT_TOOL_ERR_SERVICE_GONE, after any operations of others.
pub exit_runtime-answers :
    (i k c s : ℕ) (killed : Bool) (rt : Runtime) (ops : List Op)
    → Waiting i k c s rt
    → Calm i c ops rt
    → c ≢ s
    → (at (run_all ops rt).requests i).replied ≡ false
    → (call_pass killed i k (exit_runtime s (run_all ops rt))).0
      ≡ some (tool_resp_set err_service_gone (codes "tool service exited"))
exit_runtime-answers i k c s killed rt ops w h n f =
    let rt' = run_all ops rt in
    let w' = run_all-Waiting i k c s ops rt h w in
    let q : at (exit_runtime s rt').requests i
        ≡ answered err_service_gone (codes "tool service exited") (at rt'.requests i) =
      exit-at s rt' i ∙ gone k c s (at rt'.requests i) w'.0 n f in
    replied_pass killed i k (exit_runtime s rt') (ap (λ x. x.replied) q)
    ∙ ap (λ (x : Request). some (tool_resp_set x.status x.result)) q
