-- ===== src/Tests/Mail.antt =====
-- Mailboxes, waits and watches of the test system.
use aaaos_renovation_agent_o.Mailbox
use aaaos_renovation_agent_o.Prelude.{
  ◌≡◌, refl, ◌⊎◌, none, some, List, [], ◌∷◌, ◌++◌, pos, true, set, replicate, arith,
}
use aaaos_renovation_agent_o.Proc.{Proc, normal, system, service_gone}
use aaaos_renovation_agent_o.Tests.{plain, leader, worker, file}
use aaaos_renovation_agent_o.Mailbox.{is_target, deliver, send_message}
use aaaos_renovation_agent_o.Mailbox.Inv.{empty-IsValid}
use aaaos_renovation_agent_o.Mailbox.Refine.{Op, post, fetch, run, fifo_run, view, run_refines}
use aaaos_renovation_agent_o.Mailbox.Send.{Bears, send_message-target}
use aaaos_renovation_agent_o.Wait.{Event, sleep, wait_pass}
use aaaos_renovation_agent_o.Wait.Pass.{Holds, Idle, wait_pass-cases}
use aaaos_renovation_agent_o.Wheel.{Wheel}
use aaaos_renovation_agent_o.Watch.{watch_file}

abbrev two_posts : List Op
two_posts =
    post 4 normal (104 ∷ 105 ∷ []) 9 ∷ post 4 system (33 ∷ []) 10 ∷ fetch ∷ fetch ∷ fetch ∷ []

run_refines_example : run Mailbox.empty two_posts ≡ fifo_run (view Mailbox.empty) two_posts
run_refines_example = run_refines two_posts Mailbox.empty empty-IsValid

send_message-target_example :
    (Bears 4 worker
      → let (s, p') = deliver worker 3 system (33 ∷ []) 10 50 in
        send_message ((leader ∷ []) ++ worker ∷ (plain ∷ [])) 3 4 (pos 1) (some (33 ∷ [])) 10 50
        ≡ (s, (leader ∷ []) ++ p' ∷ (plain ∷ [])))
    × (send_message (leader ∷ []) 3 4 (pos 1) (some (33 ∷ [])) 10 50 ≡ (service_gone, leader ∷ []))
send_message-target_example =
    send_message-target (leader ∷ []) (plain ∷ []) worker 3 4 10 50 (pos 1) system (33 ∷ []) refl
      ((λ b. omega (arith, b.2)), tt)

wait_pass-cases_example :
    ((e : Event) × ((wait_pass leader 60).0 ≡ some e) × Holds leader 60 e.reason)
    ⊎ (((wait_pass leader 60) ≡ (none, sleep leader)) × Idle leader 60)
wait_pass-cases_example = wait_pass-cases leader 60

-- A worker whose heartbeat is due at tick 70, in the bucket of that tick
abbrev beating : Proc
beating = record worker {
  ev = record worker.ev { heartbeat_interval = pos 5; heartbeat_deadline = 70 };
  wheel = record { next = 0; bucket = pos 6; active = true };
}

abbrev wheel : Wheel
wheel = record {
  heads = set (replicate 64 0) 6 1;
  count = 1;
  min_deadline = 70;
  tick_scanned = 0;
  tick_wakeups = 0;
}

abbrev watcher : Proc
watcher = (watch_file leader (some (97 ∷ [])) (some file)).1
