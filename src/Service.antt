-- ===== src/Service.antt =====
-- crates/passalong-server-cli/src/service/plan.rs and unit.rs: what `service install` and `service
-- remove` will do, as a list. A path is its text. The unit's template, which the build includes from
-- unit.service.in, is a parameter; the wording of a refusal is left out, its reason is kept.
pub mod Plans
use passalong_server.Auth.{strip_prefix}
use passalong_server.Base.{
  ℕ, zero, suc, ◌+◌, Bool, true, false, not, ◌&&◌, ◌||◌, Option, none, some, List, [], ◌∷◌, ◌++◌,
  any, length, if◌then◌else◌, ◌==◌, holds, bytes_of,
}
use passalong_server.Ids.{Text, Text-discrete}

-- `USER`, `UNIT` and `MARKER`.
abbrev pub user : Text
user = bytes_of "passalong-server"

abbrev pub unit_name : Text
unit_name = bytes_of "passalong-server.service"

abbrev pub marker : Text
marker = bytes_of "# Written by `passalong-server service install`."

-- `str::replace`: every occurrence from the left; a text has no more than its bytes.
unfoldable pub replace_in : ℕ → Text → Text → Text → Text
replace_in zero needle by text = text
replace_in (suc fuel) needle by [] = []
replace_in (suc fuel) needle by (b ∷ text) = elim (strip_prefix needle (b ∷ text)) [
  | some rest ↦ by ++ replace_in fuel needle by rest
  | none ↦ b ∷ replace_in fuel needle by text
]

abbrev pub render_unit : Text → Text → Text
render_unit template binary = replace_in (length template) (bytes_of "{{binary}}") binary template

abbrev pub render_sysusers : Text → Text
render_sysusers data_dir =
    bytes_of "# The user `passalong-server serve` runs as."
    ++ 10 ∷ marker
    ++ 10 ∷ bytes_of "u passalong-server - \"passalong-server\" "
    ++ data_dir
    ++ bytes_of " /usr/sbin/nologin"
    ++ 10 ∷ []

-- `Path::join` of a relative part, and a path that does not end in a slash.
abbrev pub join_path : Text → Text → Text
join_path path part = path ++ b'/' ∷ part

pub record Layout : Type 0 where
  pub binary : Text
  pub unit : Text
  pub sysusers : Text
  pub config_dir : Text
  pub data_dir : Text

abbrev pub default_layout : Layout
default_layout = record {
  binary = bytes_of "/usr/local/bin/passalong-server";
  unit = join_path (bytes_of "/etc/systemd/system") unit_name;
  sysusers = bytes_of "/etc/sysusers.d/passalong-server.conf";
  config_dir = bytes_of "/etc/passalong-server";
  data_dir = bytes_of "/var/lib/passalong-server";
}

abbrev pub config_file : Layout → Text
config_file layout = join_path layout.config_dir (bytes_of "config.toml")

pub data Owner : Type 0 where
  root service : Owner

pub data Action : Type 0 where
  install_binary : Text → Text → Action
  make_dir : Text → ℕ → Owner → Action
  write_file : Text → Text → ℕ → Owner → Action
  make_pair : Text → Text → List Text → Action
  remove_file : Text → Action
  run : Text → List Text → Action

pub data Existing : Type 0 where
  absent same ours foreign : Existing

-- `str::lines`, which ends a line at a line feed, and drops a carriage return before that.
abbrev pub first_line_more : ℕ → List Text → List Text
first_line_more b [] = (b ∷ []) ∷ []
first_line_more b (line ∷ rest) = (b ∷ line) ∷ rest

abbrev pub is_line_feed_next : Text → Bool
is_line_feed_next [] = false
is_line_feed_next (b ∷ text) = b == 10

unfoldable pub lines : Text → List Text
lines [] = []
lines (b ∷ text) =
    let rest = lines text in
    if b == 10
    then [] ∷ rest
    else if b == 13 && is_line_feed_next text
    then rest
    else first_line_more b rest

abbrev pub is_text : Text → Text → Bool
is_text a b = holds (Text-discrete a b)

-- `Existing::of`.
abbrev pub existing_of : Option Text → Text → Existing
existing_of none wanted = absent
existing_of (some found) wanted =
    if is_text found wanted
    then same
    else if any (is_text marker) (lines found)
    then ours
    else foreign

pub record Found : Type 0 where
  pub running : Text
  pub binary_installed : Bool
  pub unit : Existing
  pub sysusers : Existing
  pub config_exists : Bool
  pub tls : Option (Text × Text)
  pub cert_exists : Bool
  pub key_exists : Bool

pub record Wanted : Type 0 where
  pub names : List Text
  pub initial_config : Text

-- Why nothing is done, and why the unit is not started.
pub data Refusal : Type 0 where
  foreign_file : Text → Refusal
  half_pair : Text × Text → Refusal

pub record Plan : Type 0 where
  pub actions : List Action
  pub not_started : Option (Text × Text)

pub data Planned (A : Type 0) : Type 0 where
  planned : A → Planned A
  blocked : Refusal → Planned A

abbrev pub is_foreign : Existing → Bool
is_foreign foreign = true
is_foreign _ = false

abbrev pub is_unchanged : Existing → Bool
is_unchanged same = true
is_unchanged _ = false

-- `found.running != layout.binary && !found.binary_installed`.
abbrev pub needs_binary : Layout → Found → Bool
needs_binary layout found = not (is_text found.running layout.binary) && not found.binary_installed

abbrev pub binary_actions : Layout → Found → List Action
binary_actions layout found =
    if needs_binary layout found then install_binary found.running layout.binary ∷ [] else []

abbrev pub sysusers_actions : Layout → Found → List Action
sysusers_actions layout found =
    if is_unchanged found.sysusers
    then []
    else write_file layout.sysusers (render_sysusers layout.data_dir) 420 root
      ∷ run (bytes_of "systemd-sysusers") (layout.sysusers ∷ [])
      ∷ []

-- Modes 0o700, 0o644 (420 above) and 0o600.
abbrev pub own_dir : Text → Action
own_dir path = make_dir path 448 service

abbrev pub dir_actions : Layout → List Action
dir_actions layout =
    own_dir layout.config_dir
    ∷ own_dir (join_path layout.config_dir (bytes_of "tls"))
    ∷ own_dir layout.data_dir
    ∷ own_dir (join_path layout.data_dir (bytes_of "workspaces"))
    ∷ []

abbrev pub config_actions : Layout → Found → Wanted → List Action
config_actions layout found wanted =
    if found.config_exists
    then []
    else write_file (config_file layout) wanted.initial_config 384 service ∷ []

abbrev pub has_names : List Text → Bool
has_names [] = false
has_names (name ∷ names) = true

-- Whether a pair is made, and whether one is there then; `tls` is where the pair is expected.
abbrev pub makes_pair : Option (Text × Text) → Found → Wanted → Bool
makes_pair none found wanted = false
makes_pair (some pair) found wanted =
    not (found.cert_exists && found.key_exists) && has_names wanted.names

abbrev pub pair_actions : Option (Text × Text) → Found → Wanted → List Action
pair_actions none found wanted = []
pair_actions (some pair) found wanted =
    if makes_pair (some pair) found wanted then make_pair pair.0 pair.1 wanted.names ∷ [] else []

abbrev pub is_pair_there : Option (Text × Text) → Found → Wanted → Bool
is_pair_there tls found wanted =
    found.cert_exists && found.key_exists || makes_pair tls found wanted

abbrev pub unit_actions : Text → Layout → Found → List Action
unit_actions template layout found =
    if is_unchanged found.unit
    then []
    else write_file layout.unit (render_unit template layout.binary) 420 root
      ∷ run (bytes_of "systemctl") (bytes_of "daemon-reload" ∷ [])
      ∷ []

abbrev pub is_changed : Layout → Found → Bool
is_changed layout found = needs_binary layout found || not (is_unchanged found.unit)

abbrev pub why_not_started : Option (Text × Text) → Found → Wanted → Option (Text × Text)
why_not_started none found wanted = none
why_not_started (some pair) found wanted =
    if is_pair_there (some pair) found wanted then none else some pair

abbrev pub verb : Bool → Text
verb changed = if changed then bytes_of "restart" else bytes_of "start"

abbrev pub start_actions : Layout → Found → Option (Text × Text) → List Action
start_actions layout found (some pair) = []
start_actions layout found none =
    run (bytes_of "systemctl") (verb (is_changed layout found) ∷ unit_name ∷ []) ∷ []

abbrev pub last_actions : Layout → Found → Option (Text × Text) → List Action
last_actions layout found why =
    run (bytes_of "systemctl") (bytes_of "enable" ∷ unit_name ∷ []) ∷ start_actions layout found why

abbrev pub install_actions : Text → Layout → Option (Text × Text) → Found → Wanted → List Action
install_actions template layout tls found wanted =
    binary_actions layout found
    ++ (sysusers_actions layout found
        ++ (dir_actions layout
            ++ (config_actions layout found wanted
                ++ (pair_actions tls found wanted
                    ++ (unit_actions template layout found
                        ++ last_actions layout found (why_not_started tls found wanted))))))

abbrev pub is_half : Found → Bool
is_half found =
    found.cert_exists && not found.key_exists || not found.cert_exists && found.key_exists

abbrev pub full_plan : Text → Layout → Option (Text × Text) → Found → Wanted → Plan
full_plan template layout tls found wanted = record {
  actions = install_actions template layout tls found wanted;
  not_started = why_not_started tls found wanted;
}

abbrev pub plan_pair : Text → Layout → Found → Wanted → Option (Text × Text) → Planned Plan
plan_pair template layout found wanted none = planned (full_plan template layout none found wanted)
plan_pair template layout found wanted (some pair) =
    if is_half found
    then blocked (half_pair pair)
    else planned (full_plan template layout (some pair) found wanted)

unfoldable pub plan_install : Text → Layout → Found → Wanted → Planned Plan
plan_install template layout found wanted =
    if is_foreign found.unit
    then blocked (foreign_file layout.unit)
    else if is_foreign found.sysusers
    then blocked (foreign_file layout.sysusers)
    else plan_pair template layout found wanted found.tls

abbrev pub remove_unit : Layout → List Action
remove_unit layout =
    run (bytes_of "systemctl") (bytes_of "disable" ∷ bytes_of "--now" ∷ unit_name ∷ [])
    ∷ remove_file layout.unit
    ∷ run (bytes_of "systemctl") (bytes_of "daemon-reload" ∷ [])
    ∷ []

unfoldable pub plan_remove : Layout → Existing → Planned (List Action)
plan_remove layout absent = planned []
plan_remove layout foreign = blocked (foreign_file layout.unit)
plan_remove layout same = planned (remove_unit layout)
plan_remove layout ours = planned (remove_unit layout)
