-- ===== src/Control/Authenticate/Sound.antt =====
-- Who is let in, and what a guess is told.
use passalong_server.Ids.{Text-discrete}
use passalong_server.Error.{ApiError}
use passalong_server.Control.Authenticate.{
  authenticate, admit, ok, is_key, is_revoked, stored_hash, who_is, err, authenticate_key, Result,
  unauthenticated, service_unavailable, right_row, admit_right,
}
use passalong_server.Control.{Env, Text, KeyRow, Database, Authenticated, is_past, from_db}
use passalong_server.Base.{
  ℕ, ◌≡◌, refl, Bool, true, false, none, some, arith, inl, inr, find, Option-cases, Bool-cases, sym,
  ◌∙◌, ap, ◌≢◌, if◌then◌else◌, holds,
}
use passalong_server.Auth.{ApiKey, parse_key, matches, hash_of}

-- What stands behind an answer: the key that the token shows, and its row.
abbrev pub LetIn : Env → Text → Database → Authenticated → Type 0
LetIn env token db who =
    (presented : ApiKey) × (row : KeyRow) × (parse_key token ≡ some presented)
    × (find (is_key presented.id) db.api_keys ≡ some row)
    × (matches (stored_hash (some row)) (hash_of env.sha256 presented) ≡ true)
    × (is_revoked row ≡ false)
    × (is_past (from_db row.expires_at) (env.clock 0) ≡ false)
    × (who_is row presented ≡ ok who)

admit-ok :
    (env : Env) (presented : ApiKey) (now : ℕ) (row : KeyRow) (db : Database) (who : Authenticated)
    → (admit env presented now row db).0 ≡ ok who
    → (is_revoked row ≡ false)
      × (is_past (from_db row.expires_at) now ≡ false)
      × (who_is row presented ≡ ok who)
admit-ok env presented now row db who h = elim (Bool-cases (is_revoked row)) [
  | inl e ↦ ground (arith, e, h)
  | inr e ↦ elim (Bool-cases (is_past (from_db row.expires_at) now)) [
    | inl past ↦ ground (arith, e, past, h)
    | inr still ↦ (e, still, sym (kept e still) ∙ h)
  ]
]
  where
    kept :
        is_revoked row ≡ false
        → is_past (from_db row.expires_at) now ≡ false
        → (admit env presented now row db).0 ≡ who_is row presented
    kept e still = rw (e, still, admit) refl

-- `authenticate`, branch by branch.
pub authenticate-malformed :
    (env : Env) (token : Text) (db : Database)
    → parse_key token ≡ none
    → authenticate env token db ≡ (err unauthenticated, db)
unfolding authenticate
authenticate-malformed env token db e = rw (authenticate, e) refl

pub authenticate-failing :
    (env : Env) (token : Text) (db : Database) (presented : ApiKey)
    → parse_key token ≡ some presented
    → env.fails 1 ≡ true
    → authenticate env token db ≡ (err service_unavailable, db)
unfolding authenticate
authenticate-failing env token db presented e f = rw (authenticate, e, authenticate_key, f) refl

pub authenticate-unknown :
    (env : Env) (token : Text) (db : Database) (presented : ApiKey)
    → parse_key token ≡ some presented
    → env.fails 1 ≡ false
    → find (is_key presented.id) db.api_keys ≡ none
    → authenticate env token db ≡ (err unauthenticated, db)
unfolding authenticate
authenticate-unknown env token db presented e f g =
    rw (authenticate, e, authenticate_key, f, g, right_row)
      (nobody (matches (stored_hash none) (hash_of env.sha256 presented)))
  where
    nobody :
        (b : Bool)
        → admit_right env presented (env.clock 0) (if b then none else none) db
          ≡ (err unauthenticated, db)
    nobody true = refl
    nobody false = refl

pub authenticate-wrong :
    (env : Env) (token : Text) (db : Database) (presented : ApiKey) (row : KeyRow)
    → parse_key token ≡ some presented
    → env.fails 1 ≡ false
    → find (is_key presented.id) db.api_keys ≡ some row
    → matches (stored_hash (some row)) (hash_of env.sha256 presented) ≡ false
    → authenticate env token db ≡ (err unauthenticated, db)
unfolding authenticate
authenticate-wrong env token db presented row e f g w =
    rw (authenticate, e, authenticate_key, f, g, right_row, w) refl

pub authenticate-right :
    (env : Env) (token : Text) (db : Database) (presented : ApiKey) (row : KeyRow)
    → parse_key token ≡ some presented
    → env.fails 1 ≡ false
    → find (is_key presented.id) db.api_keys ≡ some row
    → matches (stored_hash (some row)) (hash_of env.sha256 presented) ≡ true
    → authenticate env token db ≡ admit env presented (env.clock 0) row db
unfolding authenticate
authenticate-right env token db presented row e f g w =
    rw (authenticate, e, authenticate_key, f, g, right_row, w) refl

no_entry :
    {P : Type 0} (x : Result Authenticated × Database) (db : Database) (e : ApiError)
    (who : Authenticated)
    → x ≡ (err e, db)
    → x.0 ≡ ok who
    → P
no_entry x db e who f h = ground (arith, f, h)

-- Whoever is let in showed the token of a key with a row in the table, with the secret whose hash
-- is kept there, at a time at which the key is neither revoked nor expired; the answer is what the
-- row says.
pub authenticate-LetIn :
    (env : Env) (token : Text) (db : Database) (who : Authenticated)
    → (authenticate env token db).0 ≡ ok who
    → LetIn env token db who
authenticate-LetIn env token db who h = elim (Option-cases (parse_key token)) [
  | inl e ↦ no_entry _ db _ who (authenticate-malformed env token db e) h
  | inr (presented, e) ↦ elim (Bool-cases (env.fails 1)) [
    | inl f ↦ no_entry _ db _ who (authenticate-failing env token db presented e f) h
    | inr f ↦ elim (Option-cases (find (is_key presented.id) db.api_keys)) [
      | inl g ↦ no_entry _ db _ who (authenticate-unknown env token db presented e f g) h
      | inr (row, g) ↦ checked presented e f row g
    ]
  ]
]
  where
    checked :
        (presented : ApiKey)
        → parse_key token ≡ some presented
        → env.fails 1 ≡ false
        → (row : KeyRow) → find (is_key presented.id) db.api_keys ≡ some row
        → LetIn env token db who
    checked presented e f row g =
        elim (Bool-cases (matches (stored_hash (some row)) (hash_of env.sha256 presented))) [
          | inl w ↦
              let right = ap (λ x. x.0) (authenticate-right env token db presented row e f g w) in
              let met = admit-ok env presented (env.clock 0) row db who (sym right ∙ h) in
              (presented, row, e, g, w, met.0, met.1, met.2)
          | inr w ↦ no_entry _ db _ who (authenticate-wrong env token db presented row e f g w) h
        ]

-- A guess is told nothing: a token that is no key's, one that names no key, and one with a secret
-- other than the one that was kept get the same answer, and leave the tables as they were.
pub authenticate-guess :
    (env : Env) (token : Text) (db : Database)
    → env.fails 1 ≡ false
    → ((presented : ApiKey) (row : KeyRow)
        → parse_key token ≡ some presented
        → find (is_key presented.id) db.api_keys ≡ some row
        → stored_hash (some row) ≢ hash_of env.sha256 presented)
    → authenticate env token db ≡ (err unauthenticated, db)
authenticate-guess env token db f wrong = elim (Option-cases (parse_key token)) [
  | inl e ↦ authenticate-malformed env token db e
  | inr (presented, e) ↦ elim (Option-cases (find (is_key presented.id) db.api_keys)) [
    | inl g ↦ authenticate-unknown env token db presented e f g
    | inr (row, g) ↦
        authenticate-wrong env token db presented row e f g (
          unequal (stored_hash (some row)) (hash_of env.sha256 presented) (wrong presented row e g))
  ]
]
  where
    unequal : (a b : Text) → a ≢ b → matches a b ≡ false
    unequal a b n = elim (Text-discrete a b) as (λ d. holds d ≡ false) [
      | yes e ↦ absurd (n e)
      | no m ↦ refl
    ]
