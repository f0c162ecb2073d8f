-- ===== src/Auth.antt =====
-- crates/passalong-server-core/src/auth.rs: API keys, what a device proves itself with. SHA-256 is
-- a parameter.
pub mod Keys
use passalong_server.Base.{
  ℕ, zero, suc, Bool, ◌&&◌, List, [], ◌∷◌, ◌++◌, Option, none, some, all, length, take, drop, holds,
  ◌==◌, if◌then◌else◌, bytes_of,
}
use passalong_server.Ids.{Bytes, Text, ApiKeyId, Text-discrete, hex, is_hex_digit}

-- `PREFIX`, `ID_DIGITS` and `SECRET_DIGITS`.
abbrev pub key_prefix : Text
key_prefix = b'p' ∷ b'a' ∷ b'l' ∷ b'_' ∷ []

abbrev pub id_digits : ℕ
id_digits = 12

abbrev pub secret_digits : ℕ
secret_digits = 64

-- `is_lower_hex` of this file takes the empty text too.
abbrev pub is_key_hex : Text → Bool
is_key_hex text = all is_hex_digit text

pub record ApiKey : Type 0 where
  pub id : ApiKeyId
  pub secret : Text

-- `ApiKey::generate`, from the bytes that were drawn for the id and for the secret.
abbrev pub generate_key : Bytes × Bytes → ApiKey
generate_key drawn = record { id = hex drawn.0; secret = hex drawn.1 }

-- `strip_prefix` and `split_once`.
unfoldable pub strip_prefix : Text → Text → Option Text
strip_prefix [] text = some text
strip_prefix (p ∷ prefix) [] = none
strip_prefix (p ∷ prefix) (b ∷ text) =
    let rest = strip_prefix prefix text in if p == b then rest else none

abbrev before_more : ℕ → Option (Text × Text) → Option (Text × Text)
before_more b none = none
before_more b (some (front, behind)) = some (b ∷ front, behind)

unfoldable pub split_once : ℕ → Text → Option (Text × Text)
split_once at [] = none
split_once at (b ∷ text) =
    let rest = split_once at text in if b == at then some ([], text) else before_more b rest

abbrev pub is_key_form : Text × Text → Bool
is_key_form (id, secret) =
    length id == id_digits && length secret == secret_digits && is_key_hex id && is_key_hex secret

abbrev pub well_formed_key : Text × Text → Option ApiKey
well_formed_key parts =
    if is_key_form parts then some (record { id = parts.0; secret = parts.1 }) else none

unfoldable pub parse_key : Text → Option ApiKey
parse_key token = elim (strip_prefix key_prefix token) [
  | none ↦ none
  | some rest ↦ elim (split_once b'_' rest) [ none ↦ none | some parts ↦ well_formed_key parts ]
]

abbrev pub reveal : ApiKey → Text
reveal key = key_prefix ++ key.id ++ b'_' ∷ key.secret

-- `SecretHash`: 32 bytes.
abbrev pub SecretHash : Type 0
SecretHash = Bytes

abbrev pub hash_of : (Bytes → Bytes) → ApiKey → SecretHash
hash_of sha256 key = sha256 key.secret

abbrev pub matches : SecretHash → SecretHash → Bool
matches a b = holds (Text-discrete a b)

abbrev pub hash_from_bytes : Bytes → Option SecretHash
hash_from_bytes bytes = if length bytes == 32 then some bytes else none

unfoldable pub zeros : ℕ → Bytes
zeros zero = []
zeros (suc n) = 0 ∷ zeros n

abbrev pub of_nothing : SecretHash
unfolding zeros
of_nothing = zeros 32
