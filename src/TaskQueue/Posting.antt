-- ===== src/TaskQueue/Posting.antt =====
-- cloud/tq/tq.go: PostOneTask, its retries, PostAll, PostDay and GetBucket. An iterator is the list of what its
-- Next gives before iterator.Done. The sizes of the objects and TASK_FILE_SKIP are 64-bit patterns.
use etl_gardener.Base.{
  ℕ, suc, zero, ◌+◌, ◌-◌, ◌*◌, ◌%◌, ◌^◌, Bool, String, Option, none, some, List, [], ◌∷◌, ltb, ◌==◌,
  str_eq, ◌||◌, concat, text_contains, int_inc, if◌then◌else◌,
}
use etl_gardener.World.{M, ◌>>=◌, give, act}
use etl_gardener.TaskQueue.{Outside, QueueHandler, get_failed, got, second}

abbrev file_url : String → String → String → String → String
file_url project queue bucket fn =
    let file = concat bucket (concat "/" fn) in
    concat "https://queue-pusher-dot-" (
      concat project
        (concat ".appspot.com/receiver?queue=" (concat queue (concat "&filename=gs://" file))))

-- What a call of Next gives: an error, or an object with its name and size.
pub data Item : Type 0 where
  next_failed : String → Item
  object : String → ℕ → Item

pub record Counts : Type 0 where
  pub file_count : ℕ
  pub byte_count : ℕ
  pub qp_err_count : ℕ
  pub gcs_err_count : ℕ

abbrev pub no_counts : Counts
no_counts = record { file_count = 0; byte_count = 0; qp_err_count = 0; gcs_err_count = 0 }

-- The size of skipCount + 1, whose sign does not matter to whether it divides; 0 is a panic.
abbrev pub divisor : ℕ → ℕ
divisor skip_count = let d = (skip_count + 1) % 2 ^ 64 in if ltb d (2 ^ 63) then d else 2 ^ 64 - d

-- int64 addition
abbrev pub int64_add : ℕ → ℕ → ℕ
int64_add a b = (a + b) % 2 ^ 64

module _ (out : Outside) (qh : QueueHandler) where
  -- PostOneTask
  unfoldable pub post_one_task : String → String → M out.World (Option String)
  post_one_task bucket fn = do
    r ← act (out.get (file_url qh.config.project qh.queue bucket fn))
    give (elim r [
      | get_failed err ↦ some err
      | got resp ↦
          if resp.status_code == 200
          then none
          else if text_contains resp.body "UNKNOWN_QUEUE"
          then some (concat resp.body (concat " " qh.queue))
          else some (concat resp.status (concat " :: " resp.body))
    ])

  abbrev pub never_recovers : String → Bool
  never_recovers err = text_contains err "UNKNOWN_QUEUE" || text_contains err "invalid filename"

  -- The end of an attempt of postWithRetry, where `rest` is what follows it.
  abbrev pub end_attempt :
      (String → M out.World (Option String)) → Option String → M out.World (Option String)
  end_attempt rest none w = some (none, w)
  end_attempt rest (some text) w = if never_recovers text then some (some text, w) else rest text w

  -- The loop of postWithRetry: the attempts left, the backoff, and the last error.
  unfoldable pub retry_loop : ℕ → ℕ → Option String → String → String → M out.World (Option String)
  retry_loop zero backoff err bucket filepath w = some (err, w)
  retry_loop (suc left) backoff err bucket filepath w =
      let rest : String → M out.World (Option String) = λ text w'.
        retry_loop left (2 * backoff) (some text) bucket filepath (out.sleep backoff w') in
      (post_one_task bucket filepath >>= end_attempt rest) w

  -- postWithRetry
  unfoldable pub post_with_retry : String → String → M out.World (Option String)
  post_with_retry bucket filepath = retry_loop 3 (50 * second) none bucket filepath

  -- A file that was posted, or not; and what PostAll returns.
  abbrev pub count_posted : Counts → ℕ → Counts
  count_posted c size = record c {
    file_count = int_inc c.file_count;
    byte_count = int64_add c.byte_count size;
  }

  abbrev pub totals : Counts → Option String → ℕ × ℕ × Option String
  totals c err = (c.file_count, c.byte_count, err)

  -- What follows a post of PostAll, where `rest` is the rest of the loop.
  abbrev pub end_post :
      (Counts → M out.World (ℕ × ℕ × Option String))
      → Counts
      → ℕ
      → Option String
      → M out.World (ℕ × ℕ × Option String)
  end_post rest c size none w = rest (count_posted c size) w
  end_post rest c size (some text) w =
      let c' = record c { qp_err_count = c.qp_err_count + 1 } in
      if ltb 5 c'.qp_err_count then some (totals c' (some text), w) else rest c' w

  -- The loop of PostAll, with loopCount.
  unfoldable pub post_loop :
      ℕ → String → List Item → ℕ → Counts → M out.World (ℕ × ℕ × Option String)
  post_loop d bucket [] i c w = some (totals c none, w)
  post_loop d bucket (next_failed err ∷ its) i c w =
      let c' = record c { gcs_err_count = c.gcs_err_count + 1 } in
      let rest = post_loop d bucket its (i + 1) c' w in
      if ltb 5 c'.gcs_err_count then some (totals c' (some err), w) else rest
  post_loop d bucket (object name size ∷ its) i c w =
      let rest = post_loop d bucket its (i + 1) in
      if d == 0
      then none
      else if i % d == 0
      then (post_with_retry bucket name >>= end_post rest c size) w
      else rest c w

  -- PostAll, with the value of TASK_FILE_SKIP; Atoi gives a number also with an error.
  unfoldable pub post_all : String → String → List Item → M out.World (ℕ × ℕ × Option String)
  post_all skip_string bucket its =
      post_loop (divisor (if str_eq skip_string "" then 0 else out.atoi skip_string)) bucket its 0
        no_counts

  -- PostDay; `objects` gives the iterator over the objects of a bucket with a prefix and a delimiter.
  unfoldable pub post_day :
      (String → String → out.World → List Item × out.World)
      → String
      → String
      → String
      → M out.World (ℕ × ℕ × Option String)
  post_day objects skip_string bucket_name prefix = do
    its ← act (objects "/" prefix)
    post_all skip_string bucket_name its

-- GetBucket: none for the bucket, or the error; `attrs` is the error of bucket.Attrs.
unfoldable pub get_bucket :
    {W : Type 0} → (String → W → Option String × W) → String → Bool → M W (Option String)
get_bucket attrs bucket_name dry_run w =
    if dry_run then some (none, w) else some (attrs bucket_name w)
