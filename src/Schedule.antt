-- ===== src/Schedule.antt =====
-- The queue of internal/engine/queue.go in use: the dispatcher of internal/engine/dispatcher.go
-- takes tasks off it and its workers complete them. A task is in flight from the `Dequeue` that
-- hands it out to its `MarkComplete`, in the channel to the workers or at a worker.
pub mod Invariant
pub mod Submit
pub mod Handout
pub mod Complete
pub mod Serial
pub mod Fifo
pub mod Drain
pub mod Tests
use verustcode.Base.{String, Bool, true, Option, none, some, List, [], ◌∷◌, ◌≡◌, ◌≢◌, All}
use verustcode.Model.{Task}
use verustcode.Queue.{RepoTaskQueue, new_repo_task_queue, task, enqueue, enqueue_as_running}
use verustcode.Queue.Dequeue.{dequeue}
use verustcode.Queue.Finish.{mark_complete}

pub record System : Type 0 where
  pub queue : RepoTaskQueue
  pub in_flight : List Task

abbrev pub start : System
start = record { queue = new_repo_task_queue; in_flight = [] }

-- One task of a list, and the rest.
pub data Pick (t : Task) : List Task → List Task → Type 0 where
  here : {ts : List Task} → Pick t (t ∷ ts) ts
  there : {u : Task} {ts us : List Task} → Pick t ts us → Pick t (u ∷ ts) (u ∷ us)

abbrev pub HasId : String → Task → Type 0
HasId id t = t.review.id ≡ id

abbrev pub OtherId : String → Task → Type 0
OtherId id t = t.review.id ≢ id

abbrev pub OtherRepo : String → Task → Type 0
OtherRepo repo t = t.review.repo_url ≢ repo

-- `submit` asks what `Retry` checks by `HasTask` before it enqueues, and `recover` that no task of
-- the repository is in flight, as before the first dispatch. `RemoveTask` has no caller, and so no
-- step.
pub data Step : System → System → Type 0 where
  submit :
      {s : System} (t : Task)
      → All (OtherId t.review.id) s.in_flight
      → Step s (record s { queue = (enqueue s.queue (task t)).0 })
  recover :
      {s : System} (t : Task)
      → All (OtherId t.review.id) s.in_flight
      → All (OtherRepo t.review.repo_url) s.in_flight
      → Step s (record s { queue = (enqueue_as_running s.queue (task t)).0 })
  dispatch :
      {s : System} (order order' : List String) {q' : RepoTaskQueue} {t : Task}
      → dequeue s.queue order order' ≡ (q', some t)
      → Step s (record { queue = q'; in_flight = t ∷ s.in_flight })
  complete :
      {s : System} {t : Task} {rest : List Task}
      → Pick t s.in_flight rest
      → Step s
          (record { queue = mark_complete s.queue t.review.repo_url t.review.id; in_flight = rest })

pub data Reach (s : System) : System → Type 0 where
  here : Reach s s
  next : {t u : System} → Reach s t → Step t u → Reach s u

-- No two tasks of one repository.
abbrev pub OnePerRepo : List Task → Type 0
OnePerRepo [] = Unit
OnePerRepo (t ∷ ts) = All (OtherRepo t.review.repo_url) ts × OnePerRepo ts
