-- ===== src/Schedule/Fifo.antt =====
-- The queue of internal/engine/queue.go against its specification, one FIFO list for each repository.
use verustcode.Base.{
  String, List, [], ◌∷◌, ◌++◌, ◌≡◌, inl, inr, refl, sym, ap, ◌∙◌, ◌≡⟨◌⟩◌, ◌∎, append-nil,
  append_assoc, lookup, if◌then◌else◌, All,
}
use verustcode.Model.{Task}
use verustcode.Queue.{new_repo_task_queue, task, enqueue, is_some}
use verustcode.Queue.Dequeue.{Choice, find_recovered, take_pending, drop_front}
use verustcode.Queue.Lookups.{IsPending, dequeue-IsRecovered}
use verustcode.Queue.Waiting.{
  waiting, own, waiting-enqueue, waiting-enqueue_as_running, waiting-take_recovered,
  waiting-take_pending, waiting-mark_complete,
}
use verustcode.Schedule.{
  System, start, Step, submit, recover, dispatch, complete, Reach, here, next,
}
use verustcode.Schedule.Invariant.{Inv, Serves, IsFiled, InRepo}
use verustcode.Schedule.Serial.{Reach-Inv}

-- What a step adds to the tasks accepted for a repository.
abbrev pub accepts : {s u : System} → Step s u → String → List Task
accepts {s} (submit t apart) repo =
    if (enqueue s.queue (task t)).1 then own t.review.repo_url t repo else []
accepts (recover t apart out) repo = []
accepts (dispatch order order' h) repo = []
accepts (complete p) repo = []

-- What it adds to the tasks handed out, the recovered ones left aside.
abbrev pub hands_out : {s u : System} → Step s u → String → List Task
hands_out (submit t apart) repo = []
hands_out (recover t apart out) repo = []
hands_out {s} (dispatch order order' {q'} {t} h) repo =
    if is_some (find_recovered s.queue order) then [] else own t.review.repo_url t repo
hands_out (complete p) repo = []

abbrev pub accepted : {s u : System} → Reach s u → String → List Task
accepted here repo = []
accepted (next r st) repo = accepted r repo ++ accepts st repo

abbrev pub handed_out : {s u : System} → Reach s u → String → List Task
handed_out here repo = []
handed_out (next r st) repo = handed_out r repo ++ hands_out st repo

-- The task at the head of an idle repository's queue is one of that repository.
pending-InRepo : {s : System} (c : Choice) → Inv s → IsPending s.queue c → InRepo c.repo c.task
pending-InRepo {s} c inv pen =
    let h : Serves c.repo s.queue.tasks_by_id s.in_flight c.queue =
      rw pen.stored at (inv.each c.repo) in
    let filed : All (IsFiled c.repo s.queue.tasks_by_id) (c.task ∷ drop_front c.queue.tasks) =
      rw pen.first at h.filed in
    filed.0.0

Step-waiting :
    {s u : System}
    → Inv s
    → (st : Step s u) (repo : String)
    → waiting s.queue repo ++ accepts st repo ≡ hands_out st repo ++ waiting u.queue repo
Step-waiting {s} inv (submit t apart) repo = sym (waiting-enqueue s.queue t repo)
Step-waiting {s} inv (recover t apart out) repo =
    append-nil _ ∙ sym (waiting-enqueue_as_running s.queue t repo)
Step-waiting {s} inv (complete {t} p) repo =
    append-nil _ ∙ sym (waiting-mark_complete s.queue t.review.repo_url t.review.id repo)
Step-waiting {s} inv (dispatch order order' {q'} {t} h) repo =
    append-nil _ ∙ elim (dequeue-IsRecovered s.queue q' order order' t h) [
      | inl (again, (c, rec, same, same_task)) ↦
          rw (again, same) (sym (waiting-take_recovered s.queue c repo rec))
      | inr (first, (c, pen, same, same_task)) ↦
          rw (first, same, same_task)
            (waiting-take_pending s.queue c repo pen
              ∙ ap (λ (k : String). own k c.task repo ++ waiting (take_pending s.queue c) repo)
                  (sym (pending-InRepo c inv pen)))
    ]

-- For each repository, whatever happens at the others: the tasks that `Enqueue` accepted are, in
-- the order in which it accepted them, those that `Dequeue` handed out as pending, in the order in
-- which it did, followed by those that still wait. So pending tasks of a repository start in the
-- order of their submission, and none is lost or handed out twice.
pub Reach-Fifo :
    {s : System} (r : Reach start s) (repo : String)
    → accepted r repo ≡ handed_out r repo ++ waiting s.queue repo
unfolding lookup new_repo_task_queue
Reach-Fifo here repo = refl
Reach-Fifo (next {t = s} {u} r st) repo =
    (accepted r repo ++ accepts st repo)
    ≡⟨ ap (λ (ts : List Task). ts ++ accepts st repo) (Reach-Fifo r repo) ⟩
      ((handed_out r repo ++ waiting s.queue repo) ++ accepts st repo)
    ≡⟨ append_assoc (handed_out r repo) _ _ ⟩
      (handed_out r repo ++ (waiting s.queue repo ++ accepts st repo))
    ≡⟨ ap (λ (ts : List Task). handed_out r repo ++ ts) (Step-waiting (Reach-Inv r) st repo) ⟩
      (handed_out r repo ++ (hands_out st repo ++ waiting u.queue repo))
    ≡⟨ sym (append_assoc (handed_out r repo) _ _) ⟩
      ((handed_out r repo ++ hands_out st repo) ++ waiting u.queue repo) ∎
