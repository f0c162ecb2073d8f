-- ===== src/Ids.antt =====
-- crates/passalong-server-core/src/ids.rs: identifiers, parsed strictly. A `String` is its list of
-- bytes, and an identifier is its text.
pub mod Laws
pub mod Draws
use passalong_server.Base.{
  ℕ, ◌+◌, ◌/◌, ◌%◌, Bool, false, not, ◌&&◌, ◌||◌, List, [], ◌∷◌, ◌++◌, leb, ◌==◌, if◌then◌else◌,
  length, take, drop, all, ℕ_discrete, bytes_of,
}
use passalong_server.Error.{Result, ok, err, invalid_id}

abbrev pub Bytes : Type 0
Bytes = List ℕ

abbrev pub Text : Type 0
Text = List ℕ

abbrev pub ItemId : Type 0
ItemId = Text

abbrev pub KeyId : Type 0
KeyId = Text

abbrev pub UploadId : Type 0
UploadId = Text

abbrev pub WorkspaceId : Type 0
WorkspaceId = Text

abbrev pub ApiKeyId : Type 0
ApiKeyId = Text

unfoldable pub Text-discrete : Discrete Text
Text-discrete = hlevel ℕ_discrete

abbrev pub is_hex_digit : ℕ → Bool
is_hex_digit b = leb b'0' b && leb b b'9' || leb b'a' b && leb b b'f'

unfoldable pub is_lower_hex : Text → Bool
is_lower_hex text = not (length text == 0) && all is_hex_digit text

-- `text.as_bytes()[i] == b`.
abbrev pub is_byte_at : ℕ → ℕ → Text → Bool
is_byte_at i b text = elim (drop i text) [ [] ↦ false | c ∷ _ ↦ c == b ]

unfoldable pub parse_item_id : Text → Result ItemId
unfolding is_lower_hex
parse_item_id text =
    if length text == 21
      && is_byte_at 8 b'-' text
      && is_lower_hex (take 8 text)
      && is_lower_hex (drop 9 text)
    then ok text
    else err (invalid_id (b'`' ∷ text ++ bytes_of "` is not an item id"))

abbrev pub content_key : ItemId → Text
content_key id = drop 9 id

unfoldable pub parse_key_id : Text → Result KeyId
unfolding is_lower_hex
parse_key_id text =
    if leb (length text) 64 && is_lower_hex text
    then ok text
    else err (invalid_id (bytes_of "not a key id"))

unfoldable pub parse_upload_id : Text → Result UploadId
unfolding is_lower_hex
parse_upload_id text =
    if length text == 32 && is_lower_hex text
    then ok text
    else err (invalid_id (bytes_of "not an upload id"))

unfoldable pub parse_workspace_id : Text → Result WorkspaceId
unfolding is_lower_hex
parse_workspace_id text =
    if length text == 16 && is_lower_hex text
    then ok text
    else err (invalid_id (bytes_of "not a workspace id"))

-- `format!("{b:02x}")` of a byte, and of each byte of a list.
abbrev pub hex_digit : ℕ → ℕ
hex_digit d = if leb d 9 then b'0' + d else 87 + d

unfoldable pub hex : Bytes → Text
hex [] = []
hex (b ∷ bytes) = hex_digit (b / 16 % 16) ∷ hex_digit (b % 16) ∷ hex bytes

-- `UploadId::generate` and `WorkspaceId::generate`, from the 16 or 8 bytes that were drawn.
abbrev pub generate : Bytes → Text
generate bytes = hex bytes
