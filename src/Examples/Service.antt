-- ===== src/Examples/Service.antt =====
-- A host on which nothing is installed, and one on which everything is.
use passalong_server.Service.Plans.{is_allowed, plan_install-allowed, plan_install-installed}
use passalong_server.Base.{◌≡◌, refl, [], ◌∷◌, ◌++◌, none, some, true, false, bytes_of, all}
use passalong_server.Service.{
  Found, absent, same, Wanted, full_plan, default_layout, planned, plan_install, dir_actions, run,
  unit_name,
}
use passalong_server.Ids.{Text-discrete, Text}
use passalong_server.Base.{ℕ_discrete}

abbrev template : Text
template = bytes_of "ExecStart={{binary}} serve"

abbrev asked : Wanted
asked = record { names = bytes_of "host" ∷ []; initial_config = [] }

abbrev pair_files : Text × Text
pair_files = (bytes_of "/c", bytes_of "/k")

abbrev bare_host : Found
bare_host = record {
  running = bytes_of "/tmp/passalong-server";
  binary_installed = false;
  unit = absent;
  sysusers = absent;
  config_exists = false;
  tls = some pair_files;
  cert_exists = false;
  key_exists = false;
}

abbrev installed_host : Found
installed_host = record {
  running = bytes_of "/tmp/passalong-server";
  binary_installed = true;
  unit = same;
  sysusers = same;
  config_exists = true;
  tls = some pair_files;
  cert_exists = true;
  key_exists = true;
}

plan_install-allowed_example :
    all
      (is_allowed default_layout bare_host)
      (full_plan template default_layout (some pair_files) bare_host asked).actions
    ≡ true
unfolding plan_install
plan_install-allowed_example =
    plan_install-allowed template default_layout bare_host asked
      (full_plan template default_layout (some pair_files) bare_host asked) refl

plan_install-installed_example :
    plan_install template default_layout installed_host asked
    ≡ planned (record {
      actions =
          dir_actions default_layout
          ++ run (bytes_of "systemctl") (bytes_of "enable" ∷ unit_name ∷ [])
            ∷ run (bytes_of "systemctl") (bytes_of "start" ∷ unit_name ∷ [])
            ∷ [];
      not_started = none;
    })
unfolding bytes_of Text-discrete ℕ_discrete
plan_install-installed_example =
    plan_install-installed template default_layout installed_host asked refl
