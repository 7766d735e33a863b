-- ===== src/Tests/QueueRuns.antt =====
-- cloud/tq/tq.go: a queue pusher that always reports an empty queue, and an iterator over three objects.
use etl_gardener.Base.{ℕ, ◌+◌, ◌≡◌, refl, true, false, some, none, List, [], ◌∷◌, arith}
use etl_gardener.World.{Gives}
use etl_gardener.TaskQueue.{
  Outside, QueueHandler, Response, got, slice, get_taskqueue_stats, no_stats, body_stats,
  reply_stats,
}
use etl_gardener.TaskQueue.Waiting.{wait_for_empty_queue}
use etl_gardener.TaskQueue.Emptied.{Clocked, Emptied}
use etl_gardener.TaskQueue.Quiet.{Quiet, wait_for_empty_queue-returns}
use etl_gardener.TaskQueue.Posting.{
  Item, object, next_failed, post_all, post_loop, post_with_retry, retry_loop, post_one_task,
}
use etl_gardener.TaskQueue.Accounts.{Accounted, post_all-Accounted}

abbrev pub answer : Response
answer = record { status_code = 200; status = "200 OK"; body = "[{}]"; size = 4; read_error = none }

-- The world is the time.
abbrev pub pusher : Outside
pusher = record {
  World = ℕ;
  get = λ url w. (got answer, w);
  clock = λ w. w;
  terminated = λ w. false;
  sleep = λ d w. w + d;
  rand_intn = λ n w. (7, w);
  observe_recovery = λ label d w. w;
  status_text = λ n. "";
  unmarshal = λ text. slice (no_stats ∷ []);
  atoi = λ text. 1;
}

pusher-Clocked : Clocked pusher
pusher-Clocked = record {
  get_later = λ url w. omega arith;
  rand_later = λ n w. omega arith;
  sleep_later = λ d w. omega arith;
  observe_later = λ label d w. omega arith;
}

abbrev handler : QueueHandler
handler = record {
  config = record { http_client = true; project = "mlab" };
  queue = "etl-ndt-batch_0";
}

pusher-reports :
    (w : ℕ) → get_taskqueue_stats pusher handler.config handler.queue w ≡ some ((no_stats, none), w)
unfolding get_taskqueue_stats reply_stats body_stats
pusher-reports w = refl

pusher-Quiet : Quiet pusher handler (λ _. Unit)
pusher-Quiet = record {
  goes_on = λ w q. refl;
  reports = λ w q. (w, no_stats, pusher-reports w, refl, tt);
  sleeps = λ d n w q. tt;
}

wait_for_empty_queue-returns_example :
    Gives (λ err _. err ≡ none) (wait_for_empty_queue pusher handler 17 100)
wait_for_empty_queue-returns_example =
    wait_for_empty_queue-returns pusher handler (λ _. Unit) pusher-Clocked pusher-Quiet 100 tt

abbrev objects : List Item
objects = object "a.tgz" 5 ∷ next_failed "timeout" ∷ object "b.tgz" 7 ∷ object "c.tgz" 9 ∷ []

post_all-Accounted_example :
    Gives
      (Accounted pusher handler 2 "archive" objects 100)
      (post_all pusher handler "1" "archive" objects 100)
post_all-Accounted_example =
    post_all-Accounted pusher handler "1" "archive" objects 100 (λ e. absurd (omega (arith, e)))
      (omega arith) (omega arith)

-- Every second item is posted: the first object and the second one.
post_all_two : post_all pusher handler "1" "archive" objects 100 ≡ some ((2, 12, none), 100)
unfolding post_all post_loop post_with_retry retry_loop post_one_task
post_all_two = refl
