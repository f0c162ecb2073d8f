-- ===== src/Control/Runs/RoundTrip.antt =====
-- A key that was created opens its workspace.
use passalong_server.Record.{read_write, read_only}
use passalong_server.Control.Authenticate.Sound.{authenticate-right}
use passalong_server.Record.{read_write}
use passalong_server.Auth.Keys.{parse_key-reveal}
use passalong_server.Control.Authenticate.{authenticate, admit, who_is, stored_hash}
use passalong_server.Ids.Laws.{parse_workspace_id_sound}
use passalong_server.Ids.{parse_workspace_id, Text-discrete}
use passalong_server.Control.Answers.{
  Post, workspace-Post, transaction-Post, bind-Post, execute-Post, Post-done,
}
use passalong_server.Auth.{
  ApiKey, generate_key, reveal, hash_from_bytes, parse_key, matches, hash_of,
}
use passalong_server.Control.Workspaces.{parsed_id, workspace_from, info_of, has_id}
use passalong_server.Control.Keys.{
  draw_key_from, is_key, new_key, create_key, expiry, insert_key, info_of_new, add_key, fresh_key,
  key_fuel, store_key, key_line, db_time, role_from, role_text,
}
use passalong_server.Base.{
  ℕ, ◌≡◌, refl, Bool, true, false, Option, some, arith, inl, inr, List, [], ◌∷◌, zero, suc, sym,
  ◌∙◌, ap, subst, any, find, ◌++◌, Bool-cases, ◌+◌, Option-cases, ◌||◌, not, length, holds,
  ℕ_discrete,
}
use passalong_server.Control.{
  Database, KeyRow, Env, Text, WorkspaceRow, Role, WorkspaceInfo, KeyInfo, WorkspaceId, ◌>>◌, note,
  pure, transaction, Bytes, done, is_past, from_db, write_line,
}
use passalong_server.Error.{ok, Result-cases}

-- What the search for a key id comes to: a draw that names no key, with the tables as they were.
abbrev IsNew : Env → Database → ApiKey → Database → Type 0
IsNew env db key mid =
    (mid ≡ db)
    × (any (is_key key.id) db.api_keys ≡ false)
    × ((n : ℕ) × (key ≡ generate_key (env.draw_key n)))

draw_key_from-IsNew :
    (fuel : ℕ) (env : Env) (n : ℕ) (db : Database)
    → Post (IsNew env db) (draw_key_from fuel env n db)
unfolding draw_key_from
draw_key_from-IsNew zero env n db = tt
draw_key_from-IsNew (suc fuel) env n db = elim (Bool-cases (env.fails (1000 + n))) [
  | inl e ↦ rw e tt
  | inr e ↦ elim (Bool-cases (any (is_key (generate_key (env.draw_key n)).id) db.api_keys)) [
    | inl known ↦ rw (e, known) (draw_key_from-IsNew fuel env (suc n) db)
    | inr free ↦ rw (e, free) (refl, free, (n, refl))
  ]
]

-- What a creation that was done leaves.
abbrev Created :
    Env → Text → Text → Role → Option ℕ → Database → ApiKey × KeyInfo → Database → Type 0
Created env name label role expires_at db answer mid =
    (any (is_key answer.0.id) db.api_keys ≡ false)
    × ((n : ℕ) × (answer.0 ≡ generate_key (env.draw_key n)))
    × (mid.api_keys
        ≡ db.api_keys ++ new_key env answer.1.workspace label role expires_at answer.0 ∷ [])
    × (parsed_id answer.1.workspace ≡ some answer.1.workspace)
    × (answer.1.expires_at ≡ expires_at)

parsed_id_sound : (text id : Text) → parsed_id text ≡ some id → parsed_id id ≡ some id
parsed_id_sound text id h = elim (Result-cases (parse_workspace_id text)) [
  | inl (parsed, e) ↦
      let same : parsed ≡ id = read parsed e in
      let whole = parse_workspace_id_sound text parsed e in
      subst (λ t. parsed_id t ≡ some id) (sym whole ∙ same) h
  | inr (inl (error, e)) ↦ ground (arith, e, h)
  | inr (inr e) ↦ ground (arith, e, h)
]
  where
    some-injective : {a b : Text} → some a ≡ some b → a ≡ b
    some-injective e = cc

    told : (parsed : Text) → parse_workspace_id text ≡ ok parsed → parsed_id text ≡ some parsed
    told parsed e = rw (parsed_id, e) refl

    read : (parsed : Text) → parse_workspace_id text ≡ ok parsed → parsed ≡ id
    read parsed e = some-injective (sym (told parsed e) ∙ h)

found-parsed_id :
    (row : WorkspaceRow) (found : WorkspaceInfo)
    → workspace_from row ≡ some found
    → parsed_id found.id ≡ some found.id
found-parsed_id row found h = elim (Option-cases (parsed_id row.id)) [
  | inl e ↦ ground (arith, e, h)
  | inr (id, e) ↦
      let same = ap (λ w. w.id) (some-injective (sym (told id e) ∙ h)) in
      subst (λ t. parsed_id t ≡ some t) same (parsed_id_sound row.id id e)
]
  where
    some-injective : {a b : WorkspaceInfo} → some a ≡ some b → a ≡ b
    some-injective e = cc

    told :
        (id : WorkspaceId) → parsed_id row.id ≡ some id → workspace_from row ≡ some (info_of row id)
    told id e = rw (workspace_from, e) refl

find-snoc :
    {A : Type 0} (p : A → Bool) (rows : List A) (row : A)
    → any p rows ≡ false
    → p row ≡ true
    → find p (rows ++ row ∷ []) ≡ some row
find-snoc p [] row h k = ground arith
find-snoc p (other ∷ rows) row h k = ground (arith, find-snoc p rows row)

insert_key-some :
    (row : KeyRow) (db next : Database)
    → insert_key row db ≡ some next
    → next.api_keys ≡ db.api_keys ++ row ∷ []
insert_key-some row db next h =
    elim (Bool-cases
      (any (is_key row.key_id) db.api_keys || not (any (has_id row.workspace) db.workspaces))) [
        | inl e ↦ ground (arith, e, h)
        | inr e ↦ ap (λ d. d.api_keys) (written (sym h ∙ inserted e))
      ]
  where
    written : {a b : Database} → some a ≡ some b → a ≡ b
    written e = cc

    inserted :
        any (is_key row.key_id) db.api_keys || not (any (has_id row.workspace) db.workspaces)
          ≡ false
        → insert_key row db ≡ some (record db { api_keys = db.api_keys ++ row ∷ [] })
    inserted e = rw (insert_key, e) refl

store_key-Created :
    (env : Env) (name : Text) (found : WorkspaceInfo) (label : Text) (role : Role)
    (expires_at : Option ℕ) (key : ApiKey) (db mid : Database)
    → parsed_id found.id ≡ some found.id
    → IsNew env db key mid
    → Post
        (Created env name label role expires_at db)
        (store_key env found label role expires_at key mid)
store_key-Created env name found label role expires_at key db mid p (same, free, drawn) =
    let row = new_key env found.id label role expires_at key in
    let answer = info_of_new env found label role expires_at key in
    let Q = Created env name label role expires_at db in
    execute-Post Q env 101 (insert_key row)
      (note env 102 (key_line env found label key) >> pure (key, answer)) mid
      λ next w.
        execute-Post Q env 102 (write_line (key_line env found label key)) (pure (key, answer)) next
          λ noted v. (
            free,
            drawn,
            ap (λ d. d.api_keys) (sym (written v))
                ∙ (insert_key-some row mid next w ∙ ap (λ d. d.api_keys ++ row ∷ []) same),
            p,
            refl,
          )
  where
    written : {a b : Database} → some a ≡ some b → a ≡ b
    written e = cc

create_key-Created :
    (env : Env) (name label : Text) (role : Role) (expires_in : Option ℕ) (db : Database)
    → Post
        (Created env name label role (expiry (env.clock 0) expires_in) db)
        (create_key env name label role expires_in db)
unfolding create_key
create_key-Created env name label role expires_in db =
    let expires_at = expiry (env.clock 0) expires_in in
    let Q = Created env name label role expires_at db in
    workspace-Post Q env 1 name (λ found. transaction env (add_key env found label role expires_at))
      db
      λ row found e w. transaction-Post Q env (add_key env found label role expires_at) db (
        bind-Post (IsNew env db) Q (fresh_key env) (store_key env found label role expires_at) db
          (draw_key_from-IsNew (key_fuel db) env 0 db)
          (λ key mid new.
            store_key-Created env name found label role expires_at key db mid
              (found-parsed_id row found w) new))

-- SHA-256 gives 32 bytes, and a key is made of 6 drawn bytes and 32.
abbrev pub IsSized : Env → Type 0
IsSized env =
    ((bytes : Bytes) → length (env.sha256 bytes) ≡ 32)
    × ((n : ℕ) → (length (env.draw_key n).0 ≡ 6) × (length (env.draw_key n).1 ≡ 32))

holds_self : (a : Text) → holds (Text-discrete a a) ≡ true
holds_self a = elim (Text-discrete a a) as (λ d. holds d ≡ true) [
  | yes e ↦ refl
  | no n ↦ absurd (n refl)
]

role_from-role_text : (role : Role) → role_from (role_text role) ≡ role
unfolding Text-discrete ℕ_discrete
role_from-role_text read_write = refl
role_from-role_text read_only = refl

hash_from_bytes-sized : (bytes : Bytes) → length bytes ≡ 32 → hash_from_bytes bytes ≡ some bytes
hash_from_bytes-sized bytes h = ground (arith, h)

-- The row of a key, right after the creation, to a request with the key's token.
admit-new :
    (env later : Env) (workspace label : Text) (role : Role) (expires_at : Option ℕ) (key : ApiKey)
    (now : ℕ) (db : Database)
    → parsed_id workspace ≡ some workspace
    → is_past (from_db (db_time expires_at)) now ≡ false
    → (admit later key now (new_key env workspace label role expires_at key) db).0
      ≡ ok (record {
        workspace = workspace;
        caller = record { key = key.id; role = role };
        expires_at = from_db (db_time expires_at);
        label = label;
      })
admit-new env later workspace label role expires_at key now db p current =
    rw (admit, current, who_is, p, role_from-role_text role) refl

-- A key that was created, shown as its token at any later time before it expires, with the keys
-- as the creation left them and a database that answers, opens the workspace that it was made
-- for, with its own id, role and label. Its time is what the database keeps of it, which is the
-- requested one up to the largest number that a column holds.
pub create_key-authenticate :
    (env later : Env) (name label : Text) (role : Role) (expires_in : Option ℕ) (db : Database)
    (key : ApiKey) (info : KeyInfo)
    → IsSized env
    → later.sha256 ≡ env.sha256
    → (create_key env name label role expires_in db).0 ≡ done (key, info)
    → later.fails 1 ≡ false
    → is_past (from_db (db_time info.expires_at)) (later.clock 0) ≡ false
    → (authenticate later (reveal key) (create_key env name label role expires_in db).1).0
      ≡ ok (record {
        workspace = info.workspace;
        caller = record { key = key.id; role = role };
        expires_at = from_db (db_time info.expires_at);
        label = label;
      })
create_key-authenticate env later name label role expires_in db key info sized hashes h up current =
    let expires_at = expiry (env.clock 0) expires_in in
    let mid = (create_key env name label role expires_in db).1 in
    let row = new_key env info.workspace label role expires_at key in
    let (free, (n, drawn), rows, place, time) =
      Post-done (Created env name label role expires_at db)
        (create_key env name label role expires_in db) (key, info) h
        (create_key-Created env name label role expires_in db) in
    let parsed =
      subst (λ k. parse_key (reveal k) ≡ some k) (sym drawn)
        (parse_key-reveal (env.draw_key n) (sized.1 n).0 (sized.1 n).1) in
    let found =
      subst (λ r. find (is_key key.id) r ≡ some row) (sym rows)
        (find-snoc (is_key key.id) db.api_keys row free (holds_self key.id)) in
    let right : matches (stored_hash (some row)) (hash_of later.sha256 key) ≡ true =
      rw (hashes, stored_hash, hash_from_bytes-sized (env.sha256 key.secret) (sized.0 key.secret))
        (holds_self (env.sha256 key.secret)) in
    ap (λ x. x.0) (authenticate-right later (reveal key) mid key row parsed up found right)
    ∙ subst
        (λ t.
          (admit later key (later.clock 0) row mid).0
          ≡ ok (record {
            workspace = info.workspace;
            caller = record { key = key.id; role = role };
            expires_at = from_db (db_time t);
            label = label;
          }))
        (sym time)
        (admit-new env later info.workspace label role expires_at key (later.clock 0) mid place
          (subst (λ t. is_past (from_db (db_time t)) (later.clock 0) ≡ false) time current))
