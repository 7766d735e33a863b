-- ===== src/Commands.antt =====
-- cmd/load/load.go and cmd/copy/copy.go: the two commands that load or copy a table by hand. `parse_day` is
-- time.Parse with the layout 2006-01-02, and `wait` is Wait of the started job. log.Fatal is `none`, with the
-- world as it is lost; the texts of logs are left out.
use etl_gardener.Base.{ℕ, true, false, String, Option, none, some, concat}
use etl_gardener.World.{M, follow}
use etl_gardener.Job.{Job, new_job}
use etl_gardener.Bq.Operations.{
  Client, TableOps, new_table_ops_with_client, load_table_to_tmp, copy_table_to_raw,
}

module _ (c : Client) (parse_day : String → Option ℕ) (format : String → ℕ → String)
    (wait : c.World → Option String × c.World) where
  -- What load.go does with an error, and with none.
  abbrev end_fatal : M c.World (Unit {0}) → Option String → M c.World (Unit {0})
  end_fatal rest (some err) w = none
  end_fatal rest none w = rest w

  -- After LoadToTmp
  abbrev wait_fatal : M c.World (Unit {0})
  wait_fatal w = let r = wait w in end_fatal (λ w'. some (tt, w')) r.0 r.1

  abbrev load_with : Option TableOps → M c.World (Unit {0})
  load_with none w = none
  load_with (some ops) w = follow (load_table_to_tmp c ops false w) (end_fatal wait_fatal)

  abbrev load_day : String → Option ℕ → M c.World (Unit {0})
  load_day datatype none w = none
  load_day datatype (some d) w =
      let j = new_job "bucket" "ndt" datatype d in
      let source = concat "gs://etl-mlab-sandbox/" (
        concat j.experiment
          (concat "/" (concat j.datatype (concat "/" (format "2006/01/02/*" d))))) in
      load_with (new_table_ops_with_client true j "mlab-sandbox" source) w

  -- main of load.go, by its flags. NewTableOps has its client.
  unfoldable pub load_main : String → String → M c.World (Unit {0})
  load_main datatype date w = load_day datatype (parse_day date) w

  -- copyFunc: errors are logged, and it returns.
  abbrev logged_copy : Option String → M c.World (Unit {0})
  logged_copy (some err) w = some (tt, w)
  logged_copy none w = some (tt, (wait w).1)

  abbrev copy_with : Option TableOps → M c.World (Unit {0})
  copy_with none w = some (tt, w)
  copy_with (some ops) w = follow (copy_table_to_raw c ops false w) logged_copy

  unfoldable pub copy_partition : Job → M c.World (Unit {0})
  copy_partition j w = copy_with (new_table_ops_with_client true j "mlab-sandbox" "") w

  abbrev copy_day : String → Option ℕ → M c.World (Unit {0})
  copy_day datatype none w = none
  copy_day datatype (some d) w =
      copy_partition (new_job "unused-bucket" "unused-experiment" datatype d) w

  -- main of copy.go
  unfoldable pub copy_main : String → String → M c.World (Unit {0})
  unfolding copy_partition
  copy_main datatype date w = copy_day datatype (parse_day date) w
