-- ===== src/Examples/Keys.antt =====
-- A control database with one workspace and two keys.
use passalong_server.Control.Runs.Drawing.{fresh_key-enough}
use passalong_server.Auth.Keys.{parse_key-reveal, parse_key_sound}
use passalong_server.Control.Authenticate.Sound.{LetIn, authenticate-LetIn, authenticate-guess}
use passalong_server.Control.Runs.Atomic.{IsTrailOf, after_all-IsTrailOf, perform-refused}
use passalong_server.Control.Runs.Consistent.{IsConsistent, after_all-IsConsistent}
use passalong_server.Control.Runs.{Call, extend_key_call, after_all, create_workspace_call, perform}
use passalong_server.Error.{ok, err, unauthenticated}
use passalong_server.Control.Runs.Revoked.{NeverDraws, revoke_key-permanent}
use passalong_server.Control.Authenticate.{authenticate}
use passalong_server.Control.Workspaces.{workspace, create_workspace, valid_name}
use passalong_server.Record.{read_only, read_write}
use passalong_server.Control.Keys.{
  create_key, draw_key_from, revoke_key, change_key, key, extend_key, fresh_key,
}
use passalong_server.Control.Runs.RoundTrip.{IsSized, create_key-authenticate}
use passalong_server.Base.{
  ℕ, ◌≡◌, refl, List, [], ◌∷◌, ◌++◌, none, some, arith, true, false, length, take, ◌+◌, suc,
  bytes_of, ap, length-take, zero, length-append, ℕ_discrete, ◌≢◌,
}
use passalong_server.Auth.{
  zeros, ApiKey, generate_key, reveal, parse_key, strip_prefix, split_once, is_key_form,
}
use passalong_server.Control.{
  spins, Env, Database, to_db, KeyInfo, Outcome, transaction, and_then, done, Authenticated,
  new_database, name_taken,
}
use passalong_server.Ids.{
  Bytes, Text, generate, hex, Text-discrete, parse_workspace_id, is_lower_hex,
}

-- A stand-in for SHA-256 with answers of its length, and draws that count.
abbrev pub padded : Bytes → Bytes
padded bytes = take 32 (bytes ++ zeros 32)

abbrev pub env_of : ℕ → ℕ → Env
env_of first now = record {
  clock = λ n. now + n;
  draw_id = zeros 8;
  draw_key = λ n. (first ∷ n ∷ zeros 4, first ∷ n ∷ zeros 30);
  fails = λ step. false;
  sha256 = padded;
}

length-zeros : (n : ℕ) → length (zeros n) ≡ n
unfolding zeros
length-zeros zero = refl
length-zeros (suc n) = ap suc (length-zeros n)

env_of-IsSized : (first now : ℕ) → IsSized (env_of first now)
unfolding zeros
env_of-IsSized first now = (
  λ bytes.
      omega (
        arith,
        length-take 32 (bytes ++ zeros 32),
        length-append bytes (zeros 32),
        length-zeros 32,
      ),
  λ n. (refl, refl),
)

abbrev pub place : Text
place = generate (zeros 8)

abbrev pub named : Text
named = bytes_of "a"

abbrev pub empty_place : Database
empty_place = record {
  workspaces =
      record { id = place; name = some named; quota_bytes = none; created_at = to_db 1 } ∷ [];
  api_keys = [];
  audit = [];
}

abbrev phone : ApiKey
phone = generate_key (7 ∷ 0 ∷ zeros 4, 7 ∷ 0 ∷ zeros 30)

abbrev laptop : ApiKey
laptop = generate_key (9 ∷ 0 ∷ zeros 4, 9 ∷ 0 ∷ zeros 30)

abbrev phone_env : Env
phone_env = env_of 7 100

abbrev phone_info : KeyInfo
phone_info = record {
  id = phone.id;
  workspace = place;
  workspace_name = named;
  label = [];
  role = read_only;
  created_at = 100;
  expires_at = some 150;
  revoked_at = none;
  last_used_at = none;
}

abbrev made : Outcome (ApiKey × KeyInfo) × Database
made = create_key phone_env named [] read_only (some 50) empty_place

made_lem : made.0 ≡ done (phone, phone_info)
unfolding create_key workspace transaction and_then draw_key_from hex zeros bytes_of Text-discrete
    ℕ_discrete parse_workspace_id is_lower_hex
made_lem = refl

create_key-authenticate_example :
    (authenticate (env_of 7 120) (reveal phone) made.1).0
    ≡ ok (record {
      workspace = place;
      caller = record { key = phone.id; role = read_only };
      expires_at = some 150;
      label = [];
    })
create_key-authenticate_example =
    create_key-authenticate phone_env (env_of 7 120) named [] read_only (some 50) empty_place phone
      phone_info (env_of-IsSized 7 100) refl made_lem refl refl

-- The second key, and the first one revoked.
abbrev two_keys : Database
two_keys = (create_key (env_of 9 101) named [] read_write none made.1).1

abbrev without_phone : Outcome KeyInfo × Database
without_phone = revoke_key (env_of 20 110) phone.id two_keys

abbrev laptop_caller : Authenticated
laptop_caller = record {
  workspace = place;
  caller = record { key = laptop.id; role = read_write };
  expires_at = none;
  label = [];
}

abbrev revoked_info : KeyInfo
revoked_info = record phone_info { revoked_at = some 110 }

without_phone_lem : without_phone.0 ≡ done revoked_info
unfolding create_key workspace transaction and_then draw_key_from hex zeros bytes_of Text-discrete
    ℕ_discrete parse_workspace_id is_lower_hex revoke_key change_key key
without_phone_lem = refl

abbrev calls : List (Env × Call)
calls = (env_of 20 111, extend_key_call phone.id none) ∷ []

laptop_lem :
    (authenticate (env_of 30 120) (reveal laptop) (after_all calls without_phone.1)).0
    ≡ ok laptop_caller
unfolding create_key workspace transaction and_then draw_key_from hex zeros bytes_of Text-discrete
    ℕ_discrete parse_workspace_id is_lower_hex revoke_key change_key key extend_key authenticate
    parse_key strip_prefix split_once
laptop_lem = refl

never_lem : NeverDraws (env_of 20 111) phone.id
unfolding hex zeros
never_lem n e = apart 49 48 refl refl (ap first_byte e)
  where
    first_byte : Text → ℕ
    first_byte [] = 0
    first_byte (b ∷ text) = b

    apart : (a b : ℕ) → a ≡ 49 → b ≡ 48 → a ≢ b
    apart a b h k same = omega (arith, h, k, same)

revoke_key-permanent_example : laptop.id ≢ phone.id
revoke_key-permanent_example =
    revoke_key-permanent (env_of 20 110) phone.id two_keys revoked_info calls (env_of 30 120)
      (reveal laptop) laptop_caller without_phone_lem (never_lem, tt) laptop_lem

after_all-IsConsistent_example :
    IsConsistent (after_all ((env_of 1 2, create_workspace_call named none) ∷ calls) new_database)
after_all-IsConsistent_example =
    after_all-IsConsistent ((env_of 1 2, create_workspace_call named none) ∷ calls)

perform-refused_example :
    (perform (env_of 1 2) (create_workspace_call named none) empty_place).1 ≡ empty_place
unfolding create_workspace valid_name transaction and_then bytes_of Text-discrete ℕ_discrete hex
    zeros
perform-refused_example =
    perform-refused (env_of 1 2) (create_workspace_call named none) empty_place (name_taken named)
      refl

after_all-IsTrailOf_example : IsTrailOf two_keys (after_all calls two_keys)
after_all-IsTrailOf_example = after_all-IsTrailOf calls two_keys

fresh_key-enough_example : (fresh_key phone_env empty_place).0 ≢ spins
fresh_key-enough_example = fresh_key-enough phone_env empty_place λ i j a b c d e. omega arith

authenticate-LetIn_example :
    LetIn (env_of 30 120) (reveal laptop) (after_all calls without_phone.1) laptop_caller
authenticate-LetIn_example =
    authenticate-LetIn (env_of 30 120) (reveal laptop) (after_all calls without_phone.1)
      laptop_caller laptop_lem

-- The phone's id with the laptop's secret.
abbrev stolen : ApiKey
stolen = record { id = phone.id; secret = laptop.secret }

authenticate-guess_example :
    authenticate (env_of 30 120) (reveal stolen) empty_place ≡ (err unauthenticated, empty_place)
authenticate-guess_example =
    authenticate-guess (env_of 30 120) (reveal stolen) empty_place refl
      λ presented row e found same. ground (arith, found)

parse_key-reveal_example : parse_key (reveal phone) ≡ some phone
unfolding zeros
parse_key-reveal_example = parse_key-reveal (7 ∷ 0 ∷ zeros 4, 7 ∷ 0 ∷ zeros 30) refl refl

parse_phone : parse_key (reveal phone) ≡ some phone
unfolding parse_key strip_prefix split_once hex zeros
parse_phone = refl

parse_key_sound_example :
    (reveal phone ≡ reveal phone) × (is_key_form (phone.id, phone.secret) ≡ true)
parse_key_sound_example = parse_key_sound (reveal phone) phone parse_phone
