-- ===== src/Scheduler/Submission.antt =====
-- captain/include/scheduler.h: tasks that `schedule` hands in, at the end of the queue.
use server_framework.Base.{
  ap, append-nil, append_assoc, sym, ◌∙◌, ◌≡◌, true, List, [], ◌∷◌, ◌++◌, All,
}
use server_framework.Scheduler.{FiberAndThread, Scheduler, has_work, schedule, schedule_all}

schedule_queue :
    (s : Scheduler) (ft : FiberAndThread)
    → has_work ft ≡ true
    → (schedule s ft).1.queue ≡ s.queue ++ ft ∷ []
unfolding schedule
schedule_queue s ft h = simp h

pub schedule_all_queue :
    (s : Scheduler) (fts : List FiberAndThread)
    → All (λ ft. has_work ft ≡ true) fts
    → (schedule_all s fts).1.queue ≡ s.queue ++ fts
unfolding schedule_all
schedule_all_queue s [] h = sym (append-nil s.queue)
schedule_all_queue s (ft ∷ fts) h =
    schedule_all_queue (schedule s ft).1 fts h.1
    ∙ ap (λ q. q ++ fts) (schedule_queue s ft h.0)
    ∙ append_assoc s.queue (ft ∷ []) fts
