-- ===== src/Schedule/Serial.antt =====
-- The queue of internal/engine/queue.go as its users meet it, in the states that they can bring it to.
use verustcode.Base.{String, some, ◌≡◌, All, lookup}
use verustcode.Queue.{RepoQueue, new_repo_task_queue}
use verustcode.Schedule.{
  System, start, Step, submit, recover, dispatch, complete, Reach, here, next, OnePerRepo,
}
use verustcode.Schedule.Invariant.{Inv, Serves, IsFiled, DistinctIds}
use verustcode.Schedule.Submit.{submit-Inv, recover-Inv}
use verustcode.Schedule.Handout.{dispatch-Inv}
use verustcode.Schedule.Complete.{complete-Inv}

start-Inv : Inv start
unfolding lookup new_repo_task_queue
start-Inv = record { one_each = tt; keyed = λ id t h. cc; each = λ repo. tt }

Step-Inv : {s u : System} → Step s u → Inv s → Inv u
Step-Inv {s} (submit t apart) inv = submit-Inv s t inv apart
Step-Inv {s} (recover t apart out) inv = recover-Inv s t inv apart out
Step-Inv {s} (dispatch order order' {q'} {t} h) inv = dispatch-Inv s order order' q' t inv h
Step-Inv {s} (complete p) inv = complete-Inv s inv p

pub Reach-Inv : {s : System} → Reach start s → Inv s
Reach-Inv here = start-Inv
Reach-Inv (next r st) = Step-Inv st (Reach-Inv r)

-- At any time at most one task of each repository is in flight: whatever the order in which the
-- maps are searched, however submissions, recovered reviews, dispatches and completions follow one
-- another, provided that no review is submitted while it is in flight and that none is recovered
-- into a repository that has a task in flight.
pub Reach-OnePerRepo : {s : System} → Reach start s → OnePerRepo s.in_flight
Reach-OnePerRepo r = (Reach-Inv r).one_each

-- In such a state every pending task stands in the queue of its own repository and is found in the
-- index under its id, and no queue holds two tasks of one id.
pub Reach-IsFiled :
    {s : System} (repo : String) {rq : RepoQueue}
    → Reach start s
    → lookup repo s.queue.queues ≡ some rq
    → All (IsFiled repo s.queue.tasks_by_id) rq.tasks × DistinctIds rq.tasks
Reach-IsFiled {s} repo {rq} r stored =
    let h : Serves repo s.queue.tasks_by_id s.in_flight rq =
      rw stored at ((Reach-Inv r).each repo) in
    (h.filed, h.distinct)
