-- ===== src/Recovery/Indexed.antt =====
-- The index of the queue of internal/engine/queue.go as recovery adds tasks to it.
use verustcode.Base.{String, true, ◌≡◌, inl, inr, eq_refl, lookup, lookup-insert, Bool-cases}
use verustcode.Model.{Task}
use verustcode.Queue.{RepoTaskQueue, task, enqueue, is_some}

-- The queue has a task of that id.
abbrev pub Indexed : RepoTaskQueue → String → Type 0
Indexed q id = is_some (lookup id q.tasks_by_id) ≡ true

pub enqueue-has : (q : RepoTaskQueue) (t : Task) → Indexed (enqueue q (task t)).0 t.review.id
unfolding enqueue
enqueue-has q t = elim (Bool-cases (is_some (lookup t.review.id q.tasks_by_id))) [
  | inl old ↦ rw old old
  | inr fresh ↦ rw (fresh, lookup-insert, eq_refl t.review.id)
]
