-- ===== src/Bq/Stable.antt =====
-- cloud/bq/dedup.go: WaitForStableTable. Its fuel is the number of rounds of the loop. A time is in
-- nanoseconds, and 0 is `never`. Logs and metrics are left out.
use etl_gardener.Base.{
  ℕ, suc, zero, ◌+◌, ◌-◌, ◌*◌, Bool, true, false, String, Option, none, some, ltb, ◌==◌, str_eq,
  text_contains, if◌then◌else◌,
}
use etl_gardener.World.{M, ◌>>=◌}

-- Metadata tells whether there is no streaming buffer, and its error; `context_error` is ctx.Err() after
-- it.
pub record StableOutside : Type 1 where
  pub World : Type 0
  pub metadata : World → (Bool × Option String) × World
  pub context_error : World → Option String
  pub clock : World → ℕ
  pub sleep : ℕ → World → World
  pub rand_intn : ℕ → World → ℕ × World
  pub is_test : Bool

abbrev pub err_table_not_found : String
err_table_not_found = "Table not found"

abbrev pub minutes : ℕ → ℕ
minutes n = n * 60000000000

-- A round returns, gives up with an error, or goes on with bufferEmptySince and errorDeadline.
pub data StableRound : Type 0 where
  stable : StableRound
  gave_up : String → StableRound
  unstable : ℕ → ℕ → StableRound

-- The error after the loop.
unfoldable pub final_error : String → String
final_error err = if text_contains err "Not found: Table" then err_table_not_found else err

module _ (out : StableOutside) where
  -- The error of a round: a context that ended is one too.
  abbrev pub metadata_error : Option String → out.World → Option String
  metadata_error (some e) w = some e
  metadata_error none w = out.context_error w

  abbrev pub error_timeout : ℕ
  error_timeout = if out.is_test then 100000000 else minutes 2

  -- The switch of the loop, for the error and for whether there is no buffer, at the time `now`.
  abbrev pub judge_table : Option String → Bool → ℕ → ℕ → ℕ → StableRound
  judge_table none true now since deadline =
      let first = if since == 0 then now else since in
      if ltb (minutes 60) (now - first) then stable else unstable first (now + error_timeout)
  judge_table none false now since deadline = unstable 0 (now + error_timeout)
  judge_table (some e) empty now since deadline =
      if str_eq e "EOF"
      then stable
      else if ltb deadline now
      then gave_up e
      else unstable since deadline

  unfoldable pub table_round : ℕ → ℕ → M out.World StableRound
  table_round since deadline w =
      let r = out.metadata w in
      some (judge_table (metadata_error r.0.1 r.1) r.0.0 (out.clock r.1) since deadline, r.1)

  abbrev pub table_pause : out.World → out.World
  table_pause w = let n = out.rand_intn 10 w in out.sleep ((5 + n.0) * 1000000000) n.1

  -- The end of a round, where `rest` is the rest of the loop.
  abbrev pub end_table_round :
      (ℕ → ℕ → M out.World (Option String)) → StableRound → M out.World (Option String)
  end_table_round rest stable w = some (none, w)
  end_table_round rest (gave_up e) w = some (some (final_error e), w)
  end_table_round rest (unstable since deadline) w = rest since deadline (table_pause w)

  unfoldable pub table_loop : ℕ → ℕ → ℕ → M out.World (Option String)
  table_loop zero since deadline w = none
  table_loop (suc fuel) since deadline w =
      (table_round since deadline >>= end_table_round (table_loop fuel)) w

  -- WaitForStableTable
  unfoldable pub wait_for_stable_table : ℕ → M out.World (Option String)
  wait_for_stable_table fuel w = table_loop fuel 0 (out.clock w + error_timeout) w
