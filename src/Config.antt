-- ===== src/Config.antt =====
-- config/config.go: the configuration of an instance. The sections tracker and monitor hold a duration
-- each, which no other code reads. Opening the file, decoding YAML into what is there (also with an error, as
-- far as it came) and reading the environment are parameters.
use etl_gardener.Base.{ℕ, Bool, String, List, str_eq, if◌then◌else◌}
use etl_gardener.Job.{day, truncate}
use etl_gardener.Service.{SourceConfig}

pub record TrackerConfig : Type 0 where
  pub timeout : ℕ

pub record MonitorConfig : Type 0 where
  pub polling_interval : ℕ

pub record GardenerConfig : Type 0 where
  pub start_date : ℕ
  pub tracker : TrackerConfig
  pub monitor : MonitorConfig
  pub sources : List SourceConfig

-- Sources, a copy
unfoldable pub config_sources : GardenerConfig → List SourceConfig
config_sources cfg = cfg.sources

-- StartDate
unfoldable pub config_start_date : GardenerConfig → ℕ
config_start_date cfg = truncate cfg.start_date day

module _ (decode : Bool → GardenerConfig → GardenerConfig)
    (process : GardenerConfig → GardenerConfig) where
  -- readFile: errors are printed and the code goes on; `opened` tells whether there is a file to decode.
  unfoldable pub read_file : String → Bool → GardenerConfig → GardenerConfig
  read_file path opened cfg = if str_eq path "" then cfg else decode opened cfg

  -- ParseConfig
  unfoldable pub parse_config : String → Bool → GardenerConfig → GardenerConfig
  unfolding read_file
  parse_config path opened cfg = process (read_file path opened cfg)
