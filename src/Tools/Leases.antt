-- ===== src/Tools/Leases.antt =====
-- The builtin tools for leases and messages of kernel/agent_tool.c: tool_lease_begin,
-- tool_lease_commit, tool_lease_abort and tool_send_message_tool.
use aaaos_renovation_agent_o.Prelude.{
  ℕ, ◌+◌, ◌<◌, ◌^◌, ◌≡◌, refl, Option, none, some, List, [], ◌∷◌, arith, take, drop, u32, ℤ, pos,
  negsuc,
}
use aaaos_renovation_agent_o.Proc.{
  Proc, Status, ok, failed, bad_param, not_agent, no_space, busy, permission, service_gone,
}
use aaaos_renovation_agent_o.Text.{codes, put_char, put_string, put_number}
use aaaos_renovation_agent_o.Params.{streq, param_value, parse_uint_param, str_find}
use aaaos_renovation_agent_o.Params.RoundTrip.{print, lookup, Printable}
use aaaos_renovation_agent_o.Params.Numbers.{number_text, number_text-Lacks, parse_uint_param-print}
use aaaos_renovation_agent_o.Lease as LeaseTable
use aaaos_renovation_agent_o.Lease.{Leases, lease_begin, lease_commit, lease_abort}
use aaaos_renovation_agent_o.Mailbox.{send_message}
use aaaos_renovation_agent_o.Files.{Response, tool_resp_set}

-- The numbers of the results
unfoldable pub code_of : Status → ℤ
code_of ok = pos 0
code_of failed = negsuc 0
code_of bad_param = negsuc 1
code_of not_agent = negsuc 2
code_of no_space = negsuc 3
code_of busy = negsuc 4
code_of permission = negsuc 5
code_of service_gone = negsuc 6

abbrev pub respond : Status → List ℕ → Response
respond s text = tool_resp_set (code_of s) text

-- The answer to a lease that is given; its base version is 0.
unfoldable pub lease_text : ℕ → List ℕ
lease_text id =
    let given = put_number 128 (put_string 128 [] (codes "{status=ok,lease_id=")) id in
    put_char 128 (put_number 128 (put_string 128 given (codes ",base_version=")) 0) b'}'

unfoldable pub begin_answer : ℕ → Status → List ℕ
begin_answer id ok = lease_text id
begin_answer id _ = codes "lease begin failed"

-- tool_lease_begin; `namei` is the lookup of the path.
unfoldable pub tool_lease_begin :
    (List ℕ → Option LeaseTable.Inode) → Proc → List ℕ → ℕ → Leases → Response × Leases
tool_lease_begin namei p params now s = elim (param_value params (codes "path") 64) [
  | none ↦ (respond bad_param (codes "bad params"), s)
  | some path ↦
      let r = lease_begin p (namei path) now s in
      (respond r.0 (begin_answer r.1.next_lease_id r.0), r.1)
]

unfoldable pub commit_answer_text : Status → List ℕ
commit_answer_text ok = codes "{status=ok}"
commit_answer_text bad_param = codes "lease stale"
commit_answer_text _ = codes "commit failed"

abbrev pub committed : Status × Leases → Response × Leases
committed (r, s) = (respond r (commit_answer_text r), s)

abbrev pub commit_parsed : Proc → ℕ → Leases → Option ℕ → Option ℕ → Response × Leases
commit_parsed p now s (some id) (some version) = committed (lease_commit p id version now s)
commit_parsed p now s none version = (respond bad_param (codes "bad params"), s)
commit_parsed p now s (some id) none = (respond bad_param (codes "bad params"), s)

-- tool_lease_commit
unfoldable pub tool_lease_commit : Proc → List ℕ → ℕ → Leases → Response × Leases
tool_lease_commit p params now s =
    commit_parsed p now s (parse_uint_param params (codes "lease_id"))
      (parse_uint_param params (codes "expected_version"))

unfoldable pub abort_answer_text : Status → List ℕ
abort_answer_text ok = codes "{status=ok}"
abort_answer_text _ = codes "abort failed"

abbrev pub aborted : Status × Leases → Response × Leases
aborted (r, s) = (respond r (abort_answer_text r), s)

abbrev pub abort_parsed : Proc → Leases → Option ℕ → Response × Leases
abort_parsed p s none = (respond bad_param (codes "bad params"), s)
abort_parsed p s (some id) = aborted (lease_abort p id s)

-- tool_lease_abort
unfoldable pub tool_lease_abort : Proc → List ℕ → Leases → Response × Leases
tool_lease_abort p params s = abort_parsed p s (parse_uint_param params (codes "lease_id"))

unfoldable pub send_answer : Status → List ℕ
send_answer ok = codes "message delivered"
send_answer busy = codes "target mailbox full"
send_answer _ = codes "target agent unavailable"

abbrev pub sent : Status × List Proc → Response × List Proc
sent (r, procs) = (respond r (send_answer r), procs)

abbrev pub send_parsed : List Proc → Proc → List ℕ → ℕ → Option ℕ → Option ℕ → Response × List Proc
send_parsed procs p params now (some pid) (some off) =
    sent
      (send_message procs p.pid (u32 pid) (pos 0) (some (take 127 (drop (off + 8) params))) 0 now)
send_parsed procs p params now none off = (respond bad_param (codes "bad params"), procs)
send_parsed procs p params now (some pid) none = (respond bad_param (codes "bad params"), procs)

-- tool_send_message_tool: the message is all that follows "message=".
unfoldable pub tool_send_message : List Proc → Proc → List ℕ → ℕ → Response × List Proc
tool_send_message procs p params now =
    send_parsed procs p params now (parse_uint_param params (codes "target_pid"))
      (str_find params (codes "message="))

-- The parameters of a commit, written with the numbers of the lease and of the version
abbrev pub commit_params : ℕ → ℕ → List ℕ
commit_params id version =
    print
      ((codes "lease_id", number_text id) ∷ (codes "expected_version", number_text version) ∷ [])

-- A commit whose parameters are written with a lease id and a version, as buf_putu prints them, is the
-- commit of that lease id with that version, and so is an abort.
pub tool_lease_commit-print :
    (p : Proc) (id version now : ℕ) (s : Leases)
    → id < 2 ^ 64
    → version < 2 ^ 64
    → (tool_lease_commit p (commit_params id version) now s
        ≡ committed (lease_commit p id version now s))
      × (tool_lease_abort p (commit_params id version) s ≡ aborted (lease_abort p id s))
unfolding tool_lease_commit tool_lease_abort lookup streq
tool_lease_commit-print p id version now s a b =
    let fields : List (List ℕ × List ℕ) =
      (codes "lease_id", number_text id) ∷ (codes "expected_version", number_text version) ∷ [] in
    let h : Printable fields = (
      ground arith,
      ground arith,
      number_text-Lacks id,
      (ground arith, ground arith, number_text-Lacks version, tt),
    ) in
    let i = parse_uint_param-print fields (codes "lease_id") id h (ground arith) refl a in
    let v =
      parse_uint_param-print fields (codes "expected_version") version h (ground arith) refl b in
    rw (i, v) (refl, refl)
