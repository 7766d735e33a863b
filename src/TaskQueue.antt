-- ===== src/TaskQueue.antt =====
-- cloud/tq/tq.go: QueueHandler and the statistics of a task queue. What is outside (the queue pusher over HTTP, the clock, the terminator, the
-- metric) is an `Outside`; a time is in nanoseconds. Logs are left out.
pub mod Waiting
pub mod Emptied
pub mod Quiet
pub mod Posting
pub mod Accounts
use etl_gardener.Base.{
  ℕ, suc, zero, ◌+◌, ◌-◌, ◌*◌, ◌%◌, ◌^◌, Bool, String, Option, none, some, List, [], ◌∷◌, ltb, leb,
  ◌==◌, str_eq, ◌||◌, if◌then◌else◌, concat, int_inc, text_contains,
}
use etl_gardener.World.{M, ◌>>=◌, give, act, change, read, panic}

-- taskqueue.QueueStatistics, its fields that are read
pub record QueueStatistics : Type 0 where
  pub tasks : ℕ
  pub in_flight : ℕ
  pub executed_1_minute : ℕ

-- An http.Response; `size` is the number of bytes of the body, and `read_error` what ends it other
-- than its end.
pub record Response : Type 0 where
  pub status_code : ℕ
  pub status : String
  pub body : String
  pub size : ℕ
  pub read_error : Option String

-- Client.Get gives an error or a response.
pub data Reply : Type 0 where
  get_failed : String → Reply
  got : Response → Reply

-- json.Unmarshal of the statistics gives an error or the slice.
pub data Unmarshalled : Type 0 where
  unmarshal_failed : String → Unmarshalled
  slice : List QueueStatistics → Unmarshalled

pub record Outside : Type 1 where
  pub World : Type 0
  pub get : String → World → Reply × World
  pub clock : World → ℕ
  pub terminated : World → Bool
  pub sleep : ℕ → World → World
  pub rand_intn : ℕ → World → ℕ × World
  pub observe_recovery : String → ℕ → World → World
  pub status_text : ℕ → String
  pub unmarshal : String → Unmarshalled
  pub atoi : String → ℕ

-- cloud.Config, as far as it is used here; `http_client` tells whether there is a client.
pub record Config : Type 0 where
  pub http_client : Bool
  pub project : String

pub record QueueHandler : Type 0 where
  pub config : Config
  pub queue : String

abbrev pub err_nil_client : String
err_nil_client = "nil http client not allowed"

abbrev pub err_more_tasks : String
err_more_tasks = "queue has tasks pending"

abbrev pub err_terminated : String
err_terminated = "terminated early"

abbrev pub err_invalid_queue_name : String
err_invalid_queue_name = "invalid queue name"

-- io.EOF
abbrev pub eof : String
eof = "EOF"

abbrev pub second : ℕ
second = 1000000000

abbrev pub minute : ℕ
minute = 60 * second

pub data NewHandler : Type 0 where
  new_failed : String → NewHandler
  new_handler : QueueHandler → NewHandler

-- NewQueueHandler; `trim_space` is strings.TrimSpace.
unfoldable pub new_queue_handler : (String → String) → Config → String → NewHandler
new_queue_handler trim_space config queue =
    if config.http_client
    then if str_eq (trim_space queue) queue
      then new_handler (record { config = config; queue = queue })
      else new_failed err_invalid_queue_name
    else new_failed err_nil_client

abbrev pub no_stats : QueueStatistics
no_stats = record { tasks = 0; in_flight = 0; executed_1_minute = 0 }

abbrev stats_url : String → String → String
stats_url project name =
    concat "https://queue-pusher-dot-"
      (concat project (concat ".appspot.com/stats?queuename=" name))

-- io.ReadFull into 10000 bytes, when it does not fill them: the error.
abbrev read_full_error : Response → String
read_full_error resp = elim resp.read_error [
  | some e ↦ e
  | none ↦ if resp.size == 0 then eof else "unexpected EOF"
]

-- The statistics of the one queue; a slice that is empty is indexed all the same.
abbrev pub stats_of : List QueueStatistics → Option (QueueStatistics × Option String)
stats_of [] = none
stats_of (s ∷ []) = some (s, none)
stats_of (s ∷ _ ∷ _) = some (s, some "wrong length statsSlice")

module _ (out : Outside) where
  -- The part of GetTaskqueueStats that reads the body.
  unfoldable pub body_stats : Response → Option (QueueStatistics × Option String)
  body_stats resp =
      let e = read_full_error resp in
      if leb 10000 resp.size
      then some (no_stats, none)
      else if str_eq e "unexpected EOF"
      then elim (out.unmarshal resp.body) [
        | unmarshal_failed err ↦ some (no_stats, some err)
        | slice xs ↦ stats_of xs
      ]
      else some (no_stats, some e)

  unfoldable pub reply_stats : Reply → Option (QueueStatistics × Option String)
  reply_stats (get_failed err) = some (no_stats, some err)
  reply_stats (got resp) =
      if resp.status_code == 200
      then body_stats resp
      else some (no_stats, some (concat "HTTP request: " (out.status_text resp.status_code)))

  abbrev pub lift :
      Option (QueueStatistics × Option String) → M out.World (QueueStatistics × Option String)
  lift none w = none
  lift (some r) w = some (r, w)

  -- GetTaskqueueStats
  unfoldable pub get_taskqueue_stats :
      Config → String → M out.World (QueueStatistics × Option String)
  get_taskqueue_stats config name = do
    r ← act (out.get (stats_url config.project name))
    lift (reply_stats r)

  -- IsEmptyBuggy
  unfoldable pub is_empty_buggy : QueueHandler → M out.World (Option String)
  unfolding get_taskqueue_stats
  is_empty_buggy qh = do
    r ← get_taskqueue_stats qh.config qh.queue
    give (elim r.1 [
      | some err ↦ some err
      | none ↦ if r.0.in_flight + r.0.tasks == 0 then none else some err_more_tasks
    ])
