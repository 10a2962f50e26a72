-- ===== src/Thread/Tests.antt =====
-- A thread that is started, and its owner.
use chord_server.Prelude.{ℕ, ◌≤◌, ◌<◌, true, ◌≡◌, refl, Bytes, codes, arith}
use chord_server.Thread.{
  Handover, begin_thread, new_semaphore, begin_with, construct, create, wait, wait_fails, run,
  set_name, destroy, Step, creates, waits, runs, destroys, Reaches, start, step,
}
use chord_server.Thread.Start.{IsSafe, Reaches-IsSafe, run_for, Reaches-waits}
use chord_server.Thread.Dangling.{wait_fails-fault, set_name-fault}

abbrev name : Bytes
name = codes "worker_of_the_pool"

abbrev created : Handover
created = create (begin_thread 5 name) 1

created-Reaches : Reaches 5 42 name created
unfolding construct new_semaphore begin_with
created-Reaches = step (start 0) (creates 1 refl refl)

abbrev notified_thread : Handover
notified_thread = run 42 (run 42 (run 42 (run 42 (run 42 (run 42 created)))))

notified_thread-Reaches : Reaches 5 42 name notified_thread
notified_thread-Reaches =
    step (step (step (step (step (step created-Reaches runs) runs) runs) runs) runs) runs

abbrev detached : Handover
detached = destroy (wait notified_thread)

detached-Reaches : Reaches 5 42 name detached
unfolding create wait run
detached-Reaches = step (step notified_thread-Reaches (waits refl (omega arith))) (destroys refl)

Reaches-IsSafe_example : IsSafe 5 42 name detached
Reaches-IsSafe_example = Reaches-IsSafe 5 42 name detached detached-Reaches

Reaches-waits_example :
    (n : ℕ) × (n ≤ 6)
    × (0 < (run_for 5 42 name n created).object.semaphore)
    × Step 42 (run_for 5 42 name n created) (wait (run_for 5 42 name n created))
unfolding create
Reaches-waits_example = Reaches-waits 5 42 name created created-Reaches refl

wait_fails-fault_example : (run 42 (run 42 (wait_fails created))).fault ≡ true
unfolding create
wait_fails-fault_example = wait_fails-fault 5 42 name created created-Reaches refl (omega arith)

set_name-fault_example : (set_name detached (codes "late")).fault ≡ true
unfolding destroy
set_name-fault_example = set_name-fault 5 42 name (codes "late") detached detached-Reaches refl refl
