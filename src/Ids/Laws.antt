-- ===== src/Ids/Laws.antt =====
-- Identifiers: what parsing accepts, and that what the server generates parses.
use passalong_server.Base.{
  ℕ, Bool, ap, ◌∙◌, ◌==◌, if◌then◌else◌, ◌-◌, ◌*◌, ◌%◌, ◌/◌, ◌≡◌, refl, true, ◌&&◌, [], ◌∷◌, arith,
  all, length, length-drop, ◌++◌, take, drop, suc, zero, length-take,
}
use passalong_server.Error.{ApiError, ok, err}
use passalong_server.Ids.{
  Bytes, Text, ItemId, is_lower_hex, is_hex_digit, hex_digit, hex, parse_item_id, parse_upload_id,
  parse_workspace_id, content_key, generate, WorkspaceId, is_byte_at,
}

pub length-hex : (bytes : Bytes) → length (hex bytes) ≡ 2 * length bytes
unfolding hex
length-hex [] = refl
length-hex (b ∷ bytes) = omega (arith, length-hex bytes)

-- A digit's text is a lower-case hexadecimal digit.
digit : (n : ℕ) → is_hex_digit (hex_digit (n % 16)) ≡ true
digit n = ground arith

pub all-hex : (bytes : Bytes) → all is_hex_digit (hex bytes) ≡ true
unfolding hex
all-hex [] = refl
all-hex (b ∷ bytes) = ground (arith, digit (b / 16), digit b, all-hex bytes)

-- An id that the server generates, of 16 bytes for an upload and of 8 for a workspace, whatever they
-- are, is what parsing accepts, and parses to itself.
pub parse-generate :
    (bytes : Bytes)
    → (length bytes ≡ 16 → parse_upload_id (generate bytes) ≡ ok (generate bytes))
      × (length bytes ≡ 8 → parse_workspace_id (generate bytes) ≡ ok (generate bytes))
unfolding parse_upload_id parse_workspace_id is_lower_hex
parse-generate bytes = let n = length-hex bytes in let h = all-hex bytes in ground arith

accepted :
    (b : Bool) (text id : Text) (e : ApiError)
    → (if b then ok text else err e) ≡ ok id
    → (b ≡ true) × (id ≡ text)
accepted b text id e h = ground arith

all_four :
    (a b c d : Bool) → a && b && c && d ≡ true → (a ≡ true) × (b ≡ true) × (c ≡ true) × (d ≡ true)
all_four a b c d h = ground arith

equal : (m n : ℕ) → m == n ≡ true → m ≡ n
equal m n h = ground arith

-- A text is what stands before a byte of it, that byte, and what stands behind it.
cut :
    (i b : ℕ) (text : Text)
    → is_byte_at i b text ≡ true
    → text ≡ take i text ++ b ∷ drop (suc i) text
cut zero b [] h = ground arith
cut zero b (c ∷ text) h = ap (λ d. d ∷ text) (equal c b h)
cut (suc i) b [] h = ground arith
cut (suc i) b (c ∷ text) h = ap (λ rest. c ∷ rest) (cut i b text h)

lower_hex : (text : Text) → is_lower_hex text ≡ true → all is_hex_digit text ≡ true
unfolding is_lower_hex
lower_hex text h = ground arith

-- Eight lower-case hexadecimal digits, a dash, and the content key: twelve of them.
abbrev pub IsItemId : ItemId → Type 0
IsItemId id =
    (first : Text) × (id ≡ first ++ b'-' ∷ content_key id)
    × (length first ≡ 8)
    × (length (content_key id) ≡ 12)
    × (all is_hex_digit first ≡ true)
    × (all is_hex_digit (content_key id) ≡ true)

-- A text that parses as an item id is that id, byte for byte, and consists of eight lower-case
-- hexadecimal digits, a dash, and twelve more digits, which are its content key.
pub parse_item_id_sound :
    (text : Text) (id : ItemId) → parse_item_id text ≡ ok id → (id ≡ text) × IsItemId id
unfolding parse_item_id
parse_item_id_sound text id h =
    let g = accepted _ text id _ h in
    let parts = all_four _ _ _ _ g.0 in
    let long = equal (length text) 21 parts.0 in
    rw g.1 (
      refl,
      (
        take 8 text,
        cut 8 b'-' text parts.1,
        omega (arith, length-take 8 text, long),
        length-drop 9 text ∙ ap (λ n. n - 9) long,
        lower_hex (take 8 text) parts.2,
        lower_hex (drop 9 text) parts.3,
      ),
    )

-- A text that parses as a workspace id is that id.
pub parse_workspace_id_sound :
    (text : Text) (id : WorkspaceId) → parse_workspace_id text ≡ ok id → id ≡ text
unfolding parse_workspace_id
parse_workspace_id_sound text id h = (accepted _ text id _ h).1
