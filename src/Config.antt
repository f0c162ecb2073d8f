-- ===== src/Config.antt =====
-- crates/passalong-server-core/src/config.rs: sizes and durations as text, the limits of a workspace,
-- and where the configuration file is looked for. The texts of the refusals are left out.
pub mod Numbers
use passalong_server.Service.{join_path}
use passalong_server.Record.{Limits}
use passalong_server.Base.{
  ℕ, zero, suc, ◌+◌, ◌*◌, ◌-◌, ◌^◌, Bool, true, false, not, ◌&&◌, ◌||◌, Option, none, some, get_or,
  List, [], ◌∷◌, ◌++◌, length, all, find, leb, ◌==◌, if◌then◌else◌, holds, bytes_of, u64_max, min,
}
use passalong_server.Ids.{Text, Text-discrete}

abbrev pub is_digit : ℕ → Bool
is_digit b = leb b'0' b && leb b b'9'

-- `str::parse::<u64>` of digits: their number, unless there is none or it is too large.
unfoldable pub number_from : ℕ → Text → ℕ
number_from n [] = n
number_from n (b ∷ text) = number_from (n * 10 + (b - b'0')) text

abbrev pub at_most_max : ℕ → Option ℕ
at_most_max n = if leb n u64_max then some n else none

unfoldable pub parse_number : Text → Option ℕ
parse_number [] = none
parse_number (b ∷ text) =
    if all is_digit (b ∷ text) then at_most_max (number_from 0 (b ∷ text)) else none

-- `checked_mul`.
abbrev pub checked_mul : ℕ → ℕ → Option ℕ
checked_mul a b = at_most_max (a * b)

abbrev pub times : Option ℕ → ℕ → Option ℕ
times none each = none
times (some n) each = checked_mul n each

-- `take_while` and `split_at`: the digits in front, and what follows.
unfoldable pub split_digits : Text → Text × Text
split_digits [] = ([], [])
split_digits (b ∷ text) =
    let rest = split_digits text in if is_digit b then (b ∷ rest.0, rest.1) else ([], b ∷ text)

unfoldable pub trim_spaces : Text → Text
trim_spaces [] = []
trim_spaces (b ∷ text) = let rest = trim_spaces text in if b == b' ' then rest else b ∷ text

abbrev pub is_word : Text → Text → Bool
is_word a b = holds (Text-discrete a b)

abbrev pub shift_of : Text → Option ℕ
shift_of unit =
    if is_word unit []
    then some 0
    else if is_word unit (bytes_of "KiB")
    then some 10
    else if is_word unit (bytes_of "MiB")
    then some 20
    else if is_word unit (bytes_of "GiB")
    then some 30
    else if is_word unit (bytes_of "TiB")
    then some 40
    else none

-- A size, or none for `unlimited`.
abbrev pub sized : Text × Text → Option (Option ℕ)
sized (number, unit) = elim (shift_of (trim_spaces unit)) [
  | none ↦ none
  | some shift ↦
      if leb (length unit) (length (trim_spaces unit) + 1)
      then elim (times (parse_number number) (2 ^ shift)) [ none ↦ none | some n ↦ some (some n) ]
      else none
]

unfoldable pub parse_size : Text → Option (Option ℕ)
parse_size text =
    if is_word text (bytes_of "unlimited") then some none else sized (split_digits text)

abbrev pub seconds_of : ℕ → Option ℕ
seconds_of unit =
    if unit == b's'
    then some 1
    else if unit == b'm'
    then some 60
    else if unit == b'h'
    then some 3_600
    else if unit == b'd'
    then some 86_400
    else if unit == b'w'
    then some 604_800
    else none

-- The last character, and what stands before it.
unfoldable pub split_last : Text → Option (Text × ℕ)
split_last [] = none
split_last (b ∷ text) = elim (split_last text) [
  | none ↦ some ([], b)
  | some parts ↦ some (b ∷ parts.0, parts.1)
]

abbrev pub lasting : Option (Text × ℕ) → Option ℕ
lasting none = none
lasting (some parts) = elim (seconds_of parts.1) [
  | none ↦ none
  | some each ↦ times (parse_number parts.0) each
]

unfoldable pub parse_duration : Text → Option ℕ
parse_duration text = lasting (split_last text)

-- The part of the configuration that `limits_for` reads.
pub record Settings : Type 0 where
  pub workspace_quota_bytes : ℕ
  pub max_item_bytes : Option ℕ
  pub max_age_hours : ℕ
  pub lease_secs : ℕ

-- `saturating_mul`.
abbrev pub saturating_mul : ℕ → ℕ → ℕ
saturating_mul a b = min (a * b) u64_max

abbrev pub limits_for : Settings → Option ℕ → Limits
limits_for config quota = record {
  quota_bytes = get_or quota config.workspace_quota_bytes;
  max_item_bytes = config.max_item_bytes;
  staging_secs = saturating_mul config.max_age_hours 3_600;
  lease_secs = config.lease_secs;
  check_plaintext_content = true;
}

-- The environment's variables and files.
pub record Environment : Type 0 where
  pub var : Text → Option Text
  pub is_file : Text → Bool

-- A variable that is set and not empty.
abbrev pub set_variable : Environment → Text → Option Text
set_variable env name = elim (env.var name) [
  | none ↦ none
  | some value ↦ if length value == 0 then none else some value
]

abbrev pub first_of : Option Text → Option Text → Option Text
first_of (some a) other = some a
first_of none other = other

abbrev pub in_home : Option Text → List Text
in_home none = []
in_home (some home) = join_path home (bytes_of ".config/passalong-server/config.toml") ∷ []

abbrev pub in_xdg : Option Text → List Text
in_xdg none = []
in_xdg (some xdg) = join_path xdg (bytes_of "passalong-server/config.toml") ∷ []

abbrev pub places : Environment → List Text
places env =
    in_xdg (set_variable env (bytes_of "XDG_CONFIG_HOME"))
    ++ (in_home (set_variable env (bytes_of "HOME"))
        ++ (bytes_of "/etc/passalong-server/config.toml" ∷ bytes_of "./config.toml" ∷ []))

abbrev pub named_file : Environment → Option Text → Option Text
named_file env explicit =
    first_of explicit (set_variable env (bytes_of "PASSALONG_SERVER_CONFIG_FILE"))

unfoldable pub find_file : Environment → Option Text → Option Text
find_file env explicit = elim (named_file env explicit) [
  | some path ↦ if env.is_file path then some path else none
  | none ↦ find env.is_file (places env)
]
