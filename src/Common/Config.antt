-- ===== src/Common/Config.antt =====
-- include/common/config.hpp. The path operator `/` of the platform is an argument, as are the variables
-- of the environment.
use mind_trace.Base.{ℕ, Option, none, some}
use mind_trace.Base.Text.{Text, codes}

pub record Config : Type 0 where
  pub db_path : Text
  pub watch_directory : Text
  pub scan_interval_seconds : ℕ
  pub pipeline_workers : ℕ
  pub session_gap_seconds : ℕ
  pub max_results : ℕ

-- The default member values.
abbrev pub new_config : Config
new_config = record {
  db_path = codes "mindtrace.db";
  watch_directory = codes ".";
  scan_interval_seconds = 5;
  pipeline_workers = 2;
  session_gap_seconds = 1800;
  max_results = 100;
}

module _ (join : Text → Text → Text) where
  -- `USERPROFILE`, or else `HOME`.
  unfoldable pub config_dir : Option Text → Option Text → Text
  config_dir (some user_profile) home = join user_profile (codes ".mindtrace")
  config_dir none (some home) = join home (codes ".mindtrace")
  config_dir none none = codes ".mindtrace"

  unfoldable pub default_db_path : Option Text → Option Text → Text
  default_db_path user_profile home = join (config_dir user_profile home) (codes "mindtrace.db")
