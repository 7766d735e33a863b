-- ===== src/TaskQueue/Accounts.antt =====
-- PostAll: what it has counted when it returns without an error.
use etl_gardener.Base.{
  subst, ℕ, suc, zero, ◌+◌, ◌%◌, ◌*◌, ◌^◌, ◌≤◌, ◌<◌, ◌≡◌, ◌≢◌, false, String, Option, none, some,
  List, [], ◌∷◌, ltb, ◌==◌, arith, Bool-cases, inl, inr, if_cases, Ensures-mono, length,
  if◌then◌else◌, str_eq, int_inc, IsTotal,
}
use etl_gardener.World.{M, Gives, Gives-follow}
use etl_gardener.TaskQueue.{Outside, QueueHandler, second}
use etl_gardener.TaskQueue.Posting.{
  Item, next_failed, object, Counts, divisor, post_one_task, end_attempt, end_post, never_recovers,
  int64_add, retry_loop, post_with_retry, post_loop, post_all, count_posted, no_counts,
}

-- The sizes of all objects.
abbrev pub bytes : List Item → ℕ
bytes [] = 0
bytes (next_failed err ∷ its) = bytes its
bytes (object name size ∷ its) = size + bytes its

module _ (out : Outside) (qh : QueueHandler) where
  post_one_task-IsTotal :
      (bucket path : String) (w : out.World) → IsTotal (post_one_task out qh bucket path w)
  unfolding post_one_task
  post_one_task-IsTotal bucket path w = tt

  end_attempt-IsTotal :
      (rest : String → M out.World (Option String)) (e : Option String) (w : out.World)
      → ((text : String) (w' : out.World) → IsTotal (rest text w'))
      → IsTotal (end_attempt out qh rest e w)
  end_attempt-IsTotal rest none w k = tt
  end_attempt-IsTotal rest (some text) w k =
      if_cases IsTotal (never_recovers out qh text) _ _ tt (k text w)

  retry_loop-IsTotal :
      (left backoff : ℕ) (err : Option String) (bucket path : String) (w : out.World)
      → IsTotal (retry_loop out qh left backoff err bucket path w)
  unfolding retry_loop
  retry_loop-IsTotal zero backoff err bucket path w = tt
  retry_loop-IsTotal (suc left) backoff err bucket path w =
      Gives-follow (λ _ _. Unit) (λ _ _. Unit) _ _ (post_one_task-IsTotal bucket path w)
        (λ e w' q u.
          end_attempt-IsTotal
            (λ text w'.
              retry_loop out qh left (2 * backoff) (some text) bucket path (out.sleep backoff w'))
            e w'
            (λ text w'.
              retry_loop-IsTotal left (2 * backoff) (some text) bucket path (out.sleep backoff w')))

  post_with_retry-IsTotal :
      (bucket path : String) (w : out.World) → IsTotal (post_with_retry out qh bucket path w)
  unfolding post_with_retry
  post_with_retry-IsTotal bucket path w = retry_loop-IsTotal 3 (50 * second) none bucket path w

  -- What becomes of the items, from place `i` on, where the objects whose place is a multiple of `d`
  -- are posted one after another: the world before and after, the number of those whose post
  -- gave no error and the sum of their sizes, of those whose post gave one, and of the iterator's errors.
  pub data Posts (d : ℕ) (bucket : String)
      : List Item → ℕ → out.World → ℕ → ℕ → ℕ → ℕ → out.World → Type 0 where
    ended : {i : ℕ} {w : out.World} → Posts d bucket [] i w 0 0 0 0 w
    unread :
        {err : String} {its : List Item} {i : ℕ} {w w' : out.World} {files sizes failed errors : ℕ}
        → Posts d bucket its (i + 1) w files sizes failed errors w'
        → Posts d bucket (next_failed err ∷ its) i w files sizes failed (1 + errors) w'
    passed :
        {name : String} {size : ℕ} {its : List Item} {i : ℕ} {w w' : out.World}
        {files sizes failed errors : ℕ}
        → i % d ≢ 0
        → Posts d bucket its (i + 1) w files sizes failed errors w'
        → Posts d bucket (object name size ∷ its) i w files sizes failed errors w'
    was_posted :
        {name : String} {size : ℕ} {its : List Item} {i : ℕ} {w w1 w' : out.World}
        {files sizes failed errors : ℕ}
        → i % d ≡ 0
        → post_with_retry out qh bucket name w ≡ some (none, w1)
        → Posts d bucket its (i + 1) w1 files sizes failed errors w'
        → Posts d bucket (object name size ∷ its) i w (1 + files) (size + sizes) failed errors w'
    was_lost :
        {name text : String} {size : ℕ} {its : List Item} {i : ℕ} {w w1 w' : out.World}
        {files sizes failed errors : ℕ}
        → i % d ≡ 0
        → post_with_retry out qh bucket name w ≡ some (some text, w1)
        → Posts d bucket its (i + 1) w1 files sizes failed errors w'
        → Posts d bucket (object name size ∷ its) i w files sizes (1 + failed) errors w'

  -- A return without an error after counts `c`: the items to come were posted as `Posts` tells, those
  -- without an error are added to the counts, and there are at most 5 errors of each kind in all.
  abbrev Adds :
      ℕ → String → List Item → ℕ → Counts → out.World → ℕ × ℕ × Option String → out.World → Type 0
  Adds d bucket its i c w r w' =
      r.2 ≡ none
      → (files : ℕ) × (sizes : ℕ) × (failed : ℕ) × (errors : ℕ) × Posts d bucket its i w files sizes
          failed errors w'
        × (r.0 ≡ c.file_count + files)
        × (r.1 ≡ c.byte_count + sizes)
        × (c.qp_err_count + failed ≤ 5)
        × (c.gcs_err_count + errors ≤ 5)

  abbrev pub Accounted :
      ℕ → String → List Item → out.World → ℕ × ℕ × Option String → out.World → Type 0
  Accounted d bucket its w r w' =
      r.2 ≡ none
      → (failed : ℕ) × (errors : ℕ) × Posts d bucket its 0 w r.0 r.1 failed errors w'
        × (failed ≤ 5)
        × (errors ≤ 5)

  -- Bounds on the counts so far and on what may be added.
  abbrev Fits : List Item → Counts → Type 0
  Fits its c =
      (c.qp_err_count ≤ 5)
      × (c.gcs_err_count ≤ 5)
      × (c.file_count + length its < 2 ^ 64)
      × (c.byte_count + bytes its < 2 ^ 64)

  module _ (d : ℕ) (bucket : String) where
    end_post-Adds :
        (rest : Counts → M out.World (ℕ × ℕ × Option String)) (its : List Item) (i : ℕ) (c : Counts)
        (name : String) (size : ℕ) (e : Option String) (w w1 : out.World)
        → i % d ≡ 0
        → post_with_retry out qh bucket name w ≡ some (e, w1)
        → ((c' : Counts) → Fits its c' → Gives (Adds d bucket its (i + 1) c' w1) (rest c' w1))
        → Fits (object name size ∷ its) c
        → Gives (Adds d bucket (object name size ∷ its) i c w) (end_post out qh rest c size e w1)
    end_post-Adds rest its i c name size none w w1 z p k f =
        let same : int_inc c.file_count ≡ c.file_count + 1 = ground (arith, f.2) in
        let sum : int64_add c.byte_count size ≡ c.byte_count + size = ground (arith, f.3) in
        let c' = count_posted out qh c size in
        Ensures-mono (λ r. Adds d bucket its (i + 1) c' w1 r.0 r.1)
          (λ r. Adds d bucket (object name size ∷ its) i c w r.0 r.1) _
          (k c' (f.0, f.1, omega (arith, same, f.2), omega (arith, sum, f.3)))
          (λ r h e.
            let g = h e in
            (
              1 + g.0,
              size + g.1,
              g.2,
              g.3,
              was_posted z p g.4,
              omega (arith, g.5, same),
              omega (arith, g.6, sum),
              g.7,
              g.8,
            ))
    end_post-Adds rest its i c name size (some text) w w1 z p k f =
        elim (Bool-cases (ltb 5 (c.qp_err_count + 1))) [
          | inl a ↦ rw a (λ e. absurd (cc e))
          | inr a ↦
              let c' = record c { qp_err_count = c.qp_err_count + 1 } in
              let later : Gives (Adds d bucket (object name size ∷ its) i c w) (rest c' w1) =
                Ensures-mono (λ r. Adds d bucket its (i + 1) c' w1 r.0 r.1)
                  (λ r. Adds d bucket (object name size ∷ its) i c w r.0 r.1) _
                  (k c' (ground (arith, a), f.1, omega (arith, f.2), omega (arith, f.3)))
                  (λ r h e.
                    let g = h e in
                    (
                      g.0,
                      g.1,
                      1 + g.2,
                      g.3,
                      was_lost z p g.4,
                      g.5,
                      g.6,
                      omega (arith, g.7),
                      g.8,
                    )) in
              rw a later
        ]

    post_loop-Adds :
        (its : List Item) (i : ℕ) (c : Counts) (w : out.World)
        → d ≢ 0
        → Fits its c
        → Gives (Adds d bucket its i c w) (post_loop out qh d bucket its i c w)
    unfolding post_loop
    post_loop-Adds [] i c w n f =
        λ e. (0, 0, 0, 0, ended, omega arith, omega arith, omega (arith, f.0), omega (arith, f.1))
    post_loop-Adds (next_failed err ∷ its) i c w n f =
        elim (Bool-cases (ltb 5 (c.gcs_err_count + 1))) [
          | inl a ↦ rw a (λ e. absurd (cc e))
          | inr a ↦
              let c' = record c { gcs_err_count = c.gcs_err_count + 1 } in
              let later : Gives (Adds d bucket (next_failed err ∷ its) i c w)
                  (post_loop out qh d bucket its (i + 1) c' w) =
                Ensures-mono (λ r. Adds d bucket its (i + 1) c' w r.0 r.1)
                  (λ r. Adds d bucket (next_failed err ∷ its) i c w r.0 r.1) _
                  (post_loop-Adds its (i + 1) c' w n
                    (f.0, ground (arith, a), omega (arith, f.2), f.3))
                  (λ r h e.
                    let g = h e in
                    (g.0, g.1, g.2, 1 + g.3, unread g.4, g.5, g.6, g.7, omega (arith, g.8))) in
              rw a later
        ]
    post_loop-Adds (object name size ∷ its) i c w n f =
        let z : (d == 0) ≡ false = ground (arith, n) in
        elim (Bool-cases (i % d == 0)) [
          | inl a ↦
              rw (z, a)
                (Gives-follow (λ _ _. Unit) (Adds d bucket (object name size ∷ its) i c w) _ _
                  (post_with_retry-IsTotal bucket name w)
                  (λ e w1 q u.
                    end_post-Adds (post_loop out qh d bucket its (i + 1)) its i c name size e w w1
                      (ground (arith, a)) q (λ c' g. post_loop-Adds its (i + 1) c' w1 n g) f))
          | inr a ↦
              let skipped : i % d ≢ 0 = λ e. ground (arith, a, e) in
              let rest : Gives (Adds d bucket (object name size ∷ its) i c w)
                  (post_loop out qh d bucket its (i + 1) c w) =
                Ensures-mono (λ r. Adds d bucket its (i + 1) c w r.0 r.1)
                  (λ r. Adds d bucket (object name size ∷ its) i c w r.0 r.1) _
                  (post_loop-Adds its (i + 1) c w n
                    (f.0, f.1, omega (arith, f.2), omega (arith, f.3)))
                  (λ r h e.
                    let g = h e in (g.0, g.1, g.2, g.3, passed skipped g.4, g.5, g.6, g.7, g.8)) in
              rw (z, a) rest
        ]

  -- PostAll returns for a TASK_FILE_SKIP that is not -1, and fewer than 2 ^ 64 items and bytes. Where it
  -- gives no error, the objects whose place is a multiple of the divisor were posted one after
  -- another, the count of files is the number of those whose post gave no error, the count of bytes
  -- is the sum of their sizes, at most 5 posts gave an error, and so did the iterator.
  pub post_all-Accounted :
      (skip_string bucket : String) (its : List Item) (w : out.World)
      → let d = divisor (if str_eq skip_string "" then 0 else out.atoi skip_string) in
        d ≢ 0
        → length its < 2 ^ 64
        → bytes its < 2 ^ 64
        → Gives (Accounted d bucket its w) (post_all out qh skip_string bucket its w)
  unfolding post_all
  post_all-Accounted skip_string bucket its w n l b =
      let d = divisor (if str_eq skip_string "" then 0 else out.atoi skip_string) in
      Ensures-mono (λ r. Adds d bucket its 0 no_counts w r.0 r.1)
        (λ r. Accounted d bucket its w r.0 r.1) _
        (post_loop-Adds d bucket its 0 no_counts w n
          (omega arith, omega arith, omega (arith, l), omega (arith, b)))
        (λ r h e.
          let g = h e in
          let P = λ (f : ℕ) (s : ℕ). Posts d bucket its 0 w f s g.2 g.3 r.1 in
          let files : g.0 ≡ r.0.0 = omega (arith, g.5) in
          let sizes : g.1 ≡ r.0.1 = omega (arith, g.6) in
          (
            g.2,
            g.3,
            subst (λ f. P f r.0.1) files (subst (P g.0) sizes g.4),
            omega (arith, g.7),
            omega (arith, g.8),
          ))
