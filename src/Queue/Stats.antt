-- ===== src/Queue/Stats.antt =====
-- The read-only methods of internal/engine/queue.go that go through all repositories.
use verustcode.Base.{
  ℕ, String, Bool, List, ◌&&◌, ◌||◌, not, length, is_empty, if◌then◌else◌, map, sum_by, any,
}
use verustcode.Queue.{RepoQueue, RepoTaskQueue}

pub record RepoQueueStats : Type 0 where
  pub pending_count : ℕ
  pub running : Bool
  pub current_task : String

pub record QueueStats : Type 0 where
  pub total_pending : ℕ
  pub total_running : ℕ
  pub repo_count : ℕ
  pub repo_stats : List (String × RepoQueueStats)

abbrev pub pending_of : String × RepoQueue → ℕ
pending_of (repo, rq) = length rq.tasks

abbrev pub running_of : String × RepoQueue → ℕ
running_of (repo, rq) = if rq.running then 1 else 0

abbrev pub stats_of : String × RepoQueue → String × RepoQueueStats
stats_of (repo, rq) = (
  repo,
  record {
    pending_count = length rq.tasks;
    running = rq.running;
    current_task = rq.current_task_id;
  },
)

abbrev pub is_busy : String × RepoQueue → Bool
is_busy (repo, rq) = not (is_empty rq.tasks) || rq.running

abbrev pub is_ready : String × RepoQueue → Bool
is_ready (repo, rq) = not rq.running && not (is_empty rq.tasks)

unfoldable pub get_stats : RepoTaskQueue → QueueStats
get_stats q = record {
  total_pending = sum_by pending_of q.queues;
  total_running = sum_by running_of q.queues;
  repo_count = length q.queues;
  repo_stats = map stats_of q.queues;
}

unfoldable pub is_empty_queue : RepoTaskQueue → Bool
is_empty_queue q = not (any is_busy q.queues)

unfoldable pub has_pending_tasks : RepoTaskQueue → Bool
has_pending_tasks q = any is_ready q.queues

unfoldable pub get_pending_count : RepoTaskQueue → ℕ
get_pending_count q = sum_by pending_of q.queues

unfoldable pub get_running_count : RepoTaskQueue → ℕ
get_running_count q = sum_by running_of q.queues
