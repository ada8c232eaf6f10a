-- ===== src/Schedule/Tests.antt =====
-- Runs of the queue of internal/engine/queue.go: two reviews of one repository and one of another
-- are submitted, the first is handed out and completed, and its repository's next one follows.
use verustcode.Base.{
  String, false, some, List, [], ◌∷◌, ◌++◌, ◌≡◌, refl, All, lookup, insert, delete, ℕ, length, ◌≤◌,
  true, arith,
}
use verustcode.Model.{Task}
use verustcode.Samples.{sample_task}
use verustcode.Queue.{new_repo_task_queue, task, enqueue, push_back, signal_task_ready}
use verustcode.Queue.Dequeue.{
  dequeue, find_recovered, find_pending, recovered, next_pending, take_pending,
}
use verustcode.Queue.Finish.{mark_complete, complete_repo}
use verustcode.Queue.Waiting.{waiting}
use verustcode.Schedule.{System, start, submit, dispatch, Reach, here, next, OnePerRepo}
use verustcode.Schedule.Invariant.{IsFiled, DistinctIds}
use verustcode.Schedule.Serial.{Reach-OnePerRepo, Reach-IsFiled}
use verustcode.Schedule.Drain.{try_dispatch, work, try_dispatch-finishes}
use verustcode.Schedule.Fifo.{accepted, handed_out, Reach-Fifo}

abbrev pub first_task : Task
first_task = sample_task "r1" "a"

abbrev pub second_task : Task
second_task = sample_task "r2" "a"

abbrev pub other_task : Task
other_task = sample_task "r3" "b"

abbrev pub both_repos : List String
both_repos = "a" ∷ "b" ∷ []

abbrev pub after_first : System
after_first = record { queue = (enqueue new_repo_task_queue (task first_task)).0; in_flight = [] }

abbrev pub after_second : System
after_second = record { queue = (enqueue after_first.queue (task second_task)).0; in_flight = [] }

abbrev pub after_other : System
after_other = record { queue = (enqueue after_second.queue (task other_task)).0; in_flight = [] }

abbrev pub after_dispatch : System
after_dispatch = record {
  queue = (dequeue after_other.queue both_repos both_repos).0;
  in_flight = first_task ∷ [];
}

submitted : Reach start after_other
submitted =
    next (next (next here (submit first_task tt)) (submit second_task tt)) (submit other_task tt)

hands_out_first :
    dequeue after_other.queue both_repos both_repos
    ≡ ((dequeue after_other.queue both_repos both_repos).0, some first_task)
unfolding dequeue find_recovered find_pending recovered next_pending take_pending enqueue push_back
    signal_task_ready new_repo_task_queue lookup insert delete
hands_out_first = refl

dispatched : Reach start after_dispatch
dispatched = next submitted (dispatch both_repos both_repos hands_out_first)

-- While "r1" is in flight, only the review of the other repository is handed out.
busy_repo_waits : (dequeue after_dispatch.queue both_repos both_repos).1 ≡ some other_task
unfolding dequeue find_recovered find_pending recovered next_pending take_pending enqueue push_back
    signal_task_ready new_repo_task_queue lookup insert delete
busy_repo_waits = refl

next_follows :
    (dequeue (mark_complete after_dispatch.queue "a" "r1") both_repos both_repos).1
    ≡ some second_task
unfolding dequeue find_recovered find_pending recovered next_pending take_pending enqueue push_back
    signal_task_ready new_repo_task_queue lookup insert delete mark_complete complete_repo
next_follows = refl

Reach-OnePerRepo_example : OnePerRepo after_dispatch.in_flight
Reach-OnePerRepo_example = Reach-OnePerRepo dispatched

Reach-Fifo_example :
    accepted dispatched "a" ≡ handed_out dispatched "a" ++ waiting after_dispatch.queue "a"
Reach-Fifo_example = Reach-Fifo dispatched "a"

stored_first :
    lookup "a" after_other.queue.queues
    ≡ some (record {
      tasks = first_task ∷ second_task ∷ [];
      running = false;
      current_task_id = "";
      dequeued = false;
    })
unfolding enqueue push_back signal_task_ready new_repo_task_queue lookup insert delete
stored_first = refl

Reach-IsFiled_example :
    All (IsFiled "a" after_other.queue.tasks_by_id) (first_task ∷ second_task ∷ [])
    × DistinctIds (first_task ∷ second_task ∷ [])
Reach-IsFiled_example = Reach-IsFiled "a" submitted stored_first

work_of_three : work after_other.queue ≡ 6
unfolding enqueue push_back new_repo_task_queue lookup insert
work_of_three = refl

abbrev pub in_order : ℕ → List String × List String
in_order n = (both_repos, both_repos)

-- One task of each repository is sent, and the second of the first one waits.
sends_two : (try_dispatch 7 in_order after_other.queue).sent ≡ first_task ∷ other_task ∷ []
unfolding try_dispatch dequeue find_recovered find_pending recovered next_pending take_pending
    enqueue push_back signal_task_ready new_repo_task_queue lookup insert delete
sends_two = refl

try_dispatch-finishes_example :
    ((try_dispatch 7 in_order after_other.queue).finished ≡ true)
    × (length (try_dispatch 7 in_order after_other.queue).sent ≤ work after_other.queue)
try_dispatch-finishes_example =
    try_dispatch-finishes 7 in_order after_other.queue (omega (arith, work_of_three))
