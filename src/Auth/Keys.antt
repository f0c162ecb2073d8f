-- ===== src/Auth/Keys.antt =====
-- Tokens and keys, each from the other.
use passalong_server.Ids.Laws.{length-hex, all-hex}
use passalong_server.Auth.{
  strip_prefix, split_once, parse_key, Text, ApiKey, is_key_hex, is_key_form, reveal, key_prefix,
  Bytes, length, generate_key, well_formed_key,
}
use passalong_server.Base.{
  ℕ, ◌≡◌, refl, true, [], ◌∷◌, ◌++◌, none, some, arith, Option-cases, inl, inr, Bool-cases, subst,
  if◌then◌else◌, ◌∙◌, ap,
}

strip_prefix-append : (prefix text : Text) → strip_prefix prefix (prefix ++ text) ≡ some text
unfolding strip_prefix
strip_prefix-append [] text = refl
strip_prefix-append (p ∷ prefix) text = ground (arith, strip_prefix-append prefix text)

split_once-append :
    (id secret : Text)
    → is_key_hex id ≡ true
    → split_once b'_' (id ++ b'_' ∷ secret) ≡ some (id, secret)
unfolding split_once
split_once-append [] secret h = refl
split_once-append (b ∷ id) secret h = ground (arith, split_once-append id secret)

-- A key of the right form, written out as a token, parses to itself.
pub parse_key-reveal_form :
    (key : ApiKey) → is_key_form (key.id, key.secret) ≡ true → parse_key (reveal key) ≡ some key
unfolding parse_key
parse_key-reveal_form key h =
    rw
      (
        parse_key,
        strip_prefix-append key_prefix (key.id ++ b'_' ∷ key.secret),
        split_once-append key.id key.secret (is_key_form-id (key.id) (key.secret) h),
        h,
      )
      refl
  where
    is_key_form-id : (id secret : Text) → is_key_form (id, secret) ≡ true → is_key_hex id ≡ true
    is_key_form-id id secret form = ground (arith, form)

strip_prefix_sound :
    (prefix token rest : Text) → strip_prefix prefix token ≡ some rest → token ≡ prefix ++ rest
unfolding strip_prefix
strip_prefix_sound [] token rest h = ground arith
strip_prefix_sound (p ∷ prefix) [] rest h = ground arith
strip_prefix_sound (p ∷ prefix) (b ∷ token) rest h =
    ground (arith, strip_prefix_sound prefix token rest)

split_once_sound :
    (at : ℕ) (text front behind : Text)
    → split_once at text ≡ some (front, behind)
    → text ≡ front ++ at ∷ behind
unfolding split_once
split_once_sound at [] front behind h = ground arith
split_once_sound at (b ∷ text) front behind h = elim (Option-cases (split_once at text)) [
  | inl e ↦ ground (arith, e, h)
  | inr ((f, r), e) ↦ ground (arith, e, h, split_once_sound at text f r e)
]

well_formed_key-some :
    (parts : Text × Text) (key : ApiKey)
    → well_formed_key parts ≡ some key
    → (key.id ≡ parts.0) × (key.secret ≡ parts.1) × (is_key_form parts ≡ true)
well_formed_key-some parts key h = elim (Bool-cases (is_key_form parts)) [
  | inl g ↦
      let e = made (subst (λ b. (if b then some (key_at parts) else none) ≡ some key) g h) in
      (ap (λ k. k.id) e, ap (λ k. k.secret) e, g)
  | inr g ↦ ground (arith, g, h)
]
  where
    key_at : Text × Text → ApiKey
    key_at p = record { id = p.0; secret = p.1 }

    made : {k : ApiKey} → some k ≡ some key → key ≡ k
    made e = cc

-- A token is accepted only if it is, byte for byte, the token of the key that is read from it, and
-- that key's id has 12 digits and its secret 64.
pub parse_key_sound :
    (token : Text) (key : ApiKey)
    → parse_key token ≡ some key
    → (token ≡ reveal key) × (is_key_form (key.id, key.secret) ≡ true)
unfolding parse_key
parse_key_sound token key h = elim (Option-cases (strip_prefix key_prefix token)) [
  | inl e ↦ ground (arith, e, h)
  | inr (rest, e) ↦ elim (Option-cases (split_once b'_' rest)) [
    | inl f ↦ ground (arith, e, f, h)
    | inr (parts, f) ↦
        let made = well_formed_key-some parts key (subst (λ x. x ≡ some key) (reads e f) h) in
        let apart = split_once_sound b'_' rest parts.0 parts.1 f in
        (
          strip_prefix_sound key_prefix token rest e
              ∙ rw (made.0, made.1) (ap (λ t. key_prefix ++ t) apart),
          rw (made.0, made.1) made.2,
        )
  ]
]
  where
    reads :
        {rest : Text} {parts : Text × Text}
        → strip_prefix key_prefix token ≡ some rest
        → split_once b'_' rest ≡ some parts
        → parse_key token ≡ well_formed_key parts
    reads e f = rw (parse_key, e, f) refl

-- What the server makes of 6 and 32 drawn bytes is a key that its token parses to.
pub parse_key-reveal :
    (drawn : Bytes × Bytes)
    → length drawn.0 ≡ 6
    → length drawn.1 ≡ 32
    → parse_key (reveal (generate_key drawn)) ≡ some (generate_key drawn)
parse_key-reveal drawn h k =
    parse_key-reveal_form (generate_key drawn) (
      ground
        (arith, length-hex drawn.0, length-hex drawn.1, all-hex drawn.0, all-hex drawn.1, h, k))
