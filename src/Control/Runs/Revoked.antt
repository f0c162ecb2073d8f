-- ===== src/Control/Runs/Revoked.antt =====
-- A revoked key stays revoked.
use passalong_server.Control.Workspaces.{parsed_id}
use passalong_server.Control.Authenticate.Sound.{authenticate-LetIn}
use passalong_server.Error.{ok}
use passalong_server.Control.Answers.{
  Post, Post-done, transaction-Post, key-Post, execute-Post, or_before-Post,
}
use passalong_server.Control.Runs.{Call, after_all, after}
use passalong_server.Ids.{Text-discrete}
use passalong_server.Control.Authenticate.{is_revoked, who_is, authenticate}
use passalong_server.Control.Runs.Changes.{Laws, IsDrawn, after-Laws}
use passalong_server.Auth.{generate_key, ApiKey}
use passalong_server.Control.Keys.{
  is_key, is_stale, coalesce, Change, set_expiry, set_revoked, delete_where_null, change_key,
  revoke_key, key, change_body, write_change, note_change, or_before, role_from,
}
use passalong_server.Base.{
  ℕ, ◌≡◌, refl, Bool, true, Option, some, arith, inl, inr, List, [], ◌∷◌, all, not, ◌||◌, ◌≢◌,
  if◌then◌else◌, ◌⊎◌, holds, sym, ◌∙◌, find, All, Bool-cases, bytes_of, subst, ap, none,
  Option-cases, all-map, all-filter, all-snoc,
}
use passalong_server.Control.{
  Database, KeyRow, Text, Env, to_db, ℤ, Authenticated, KeyInfo, done, execute, ◌>>◌, write_line,
  note_row, WorkspaceId, from_db,
}

-- No key of the id is anything but revoked.
abbrev pub is_revoked_if : Text → KeyRow → Bool
is_revoked_if id row = not (is_key id row) || is_revoked row

abbrev pub IsRevoked : Text → Database → Type 0
IsRevoked id db = all (is_revoked_if id) db.api_keys ≡ true

-- A draw of the id by chance, for another key, is ruled out.
abbrev pub NeverDraws : Env → Text → Type 0
NeverDraws env id = (n : ℕ) → (generate_key (env.draw_key n)).id ≢ id

IsRevoked-Laws :
    (env : Env) (id : Text) → NeverDraws env id → Laws (λ a b. IsRevoked id a → IsRevoked id b) env
IsRevoked-Laws env id never = record {
  same = λ db h. h;
  both = λ a b c f g h. g (f h);
  inserts_workspace = λ row name db named new free h. h;
  deletes_rows = λ gone db h.
      all-filter (is_revoked_if id) (λ row. not (holds (Text-discrete row.workspace gone)))
        db.api_keys h;
  inserts_key =
      λ row db drawn new there h. all-snoc (is_revoked_if id) db.api_keys row h (undrawn row drawn);
  notes = λ row db h. h;
  changes = λ change other value db kind h. changed db change other value kind h;
  prunes =
      λ before db h. all-filter (is_revoked_if id) (λ row. not (is_stale before row)) db.api_keys h;
  uses =
      λ other now db h. all-map (is_revoked_if id) _ db.api_keys (λ row k. used other now row k) h;
}
  where
    undrawn : (row : KeyRow) → IsDrawn env row.key_id → is_revoked_if id row ≡ true
    undrawn row (n, e) = elim (Text-discrete row.key_id id) [
      | yes f ↦ absurd (never n (sym e ∙ f))
      | no f ↦ apart f
    ]
      where
        apart : row.key_id ≢ id → is_revoked_if id row ≡ true
        apart f = ground (arith, f)

    used :
        (other : Text) (now : ℕ) (row : KeyRow)
        → is_revoked_if id row ≡ true
        → is_revoked_if id
            (if is_key other row then record row { last_used_at = some (to_db now) } else row)
          ≡ true
    used other now row k = ground (arith, k)

    expiry_set :
        (other : Text) (value : Option ℤ) (row : KeyRow)
        → is_revoked_if id row ≡ true
        → is_revoked_if id (if is_key other row then record row { expires_at = value } else row)
          ≡ true
    expiry_set other value row k = ground (arith, k)

    revoked_set :
        (other : Text) (value : Option ℤ) (row : KeyRow)
        → is_revoked_if id row ≡ true
        → is_revoked_if id (
            if is_key other row
            then record row { revoked_at = coalesce row.revoked_at value }
            else row)
          ≡ true
    revoked_set other value row k = ground (arith, k)

    changed :
        (db : Database) (change : Change) (other : Text) (value : Option ℤ)
        → ((change ≡ set_expiry) ⊎ ((change ≡ set_revoked) ⊎ (change ≡ delete_where_null)))
        → IsRevoked id db
        → IsRevoked id (record db { api_keys = change other value db.api_keys })
    changed db change other value (inl e) h =
        rw e (all-map (is_revoked_if id) _ db.api_keys (expiry_set other value) h)
    changed db change other value (inr (inl e)) h =
        rw e (all-map (is_revoked_if id) _ db.api_keys (revoked_set other value) h)
    changed db change other value (inr (inr e)) h =
        rw e (all-filter (is_revoked_if id) _ db.api_keys h)

-- Where a change of a key's rows was done, the rows are changed and the audit trail says so.
change_key-done :
    (env : Env) (now : ℕ) (id action : Text) (change : Change) (value : Option ℤ) (db : Database)
    → Post
        (λ info mid. mid.api_keys ≡ change id value db.api_keys)
        (change_key env now id action change value db)
unfolding change_key
change_key-done env now id action change value db =
    transaction-Post Changed env (change_body env now id action change value) db (
      key-Post Changed env 1 id
        (λ before.
          execute env 2 (write_change id change value) >> note_change env now id action before)
        db
        λ joined found e g.
          execute-Post Changed env 2 (write_change id change value)
            (note_change env now id action found) db
            λ next w.
              execute-Post Changed env 3
                (write_line (note_row now action (some found.workspace) (some id) none))
                (or_before found (key env 4 id)) next
                λ noted v. or_before-Post Changed found (key env 4 id) noted λ a.
                  ap (λ d. d.api_keys) (sym (written v)) ∙ ap (λ d. d.api_keys) (sym (written w)))
  where
    Changed : KeyInfo → Database → Type 0
    Changed info mid = mid.api_keys ≡ change id value db.api_keys

    written : {a b : Database} → some a ≡ some b → a ≡ b
    written e = cc

IsRevoked-set :
    (id : Text) (value : ℤ) (rows : List KeyRow)
    → all (is_revoked_if id) (set_revoked id (some value) rows) ≡ true
IsRevoked-set id value [] = refl
IsRevoked-set id value (row ∷ rows) = ground (arith, IsRevoked-set id value rows)

revoke_key-IsRevoked :
    (env : Env) (id : Text) (db : Database) (info : KeyInfo)
    → (revoke_key env id db).0 ≡ done info
    → IsRevoked id (revoke_key env id db).1
unfolding revoke_key
revoke_key-IsRevoked env id db info h =
    let rows = Post-done _ (revoke_key env id db) info h (
      change_key-done env (env.clock 1) id (bytes_of "key.revoke") set_revoked
        (some (to_db (env.clock 0))) db) in
    subst (λ r. all (is_revoked_if id) r ≡ true) (sym rows)
      (IsRevoked-set id (to_db (env.clock 0)) db.api_keys)

after_all-IsRevoked :
    (id : Text) (calls : List (Env × Call)) (db : Database)
    → All (λ c. NeverDraws c.0 id) calls
    → IsRevoked id db
    → IsRevoked id (after_all calls db)
after_all-IsRevoked id [] db never h = h
after_all-IsRevoked id ((env, call) ∷ calls) db (never, nevers) h =
    after_all-IsRevoked id calls (after env call db) nevers
      (after-Laws _ env (IsRevoked-Laws env id never) call db h)

find-all :
    {A : Type 0} (p q : A → Bool) (rows : List A) (row : A)
    → find p rows ≡ some row
    → all q rows ≡ true
    → (p row ≡ true) × (q row ≡ true)
find-all p q [] row h k = ground arith
find-all p q (other ∷ rows) row h k = elim (Bool-cases (p other)) [
  | inl e ↦ ground (arith, e, h, k)
  | inr e ↦ ground (arith, e, h, k, find-all p q rows row)
]

who_is-key :
    (row : KeyRow) (presented : ApiKey) (who : Authenticated)
    → who_is row presented ≡ ok who
    → who.caller.key ≡ presented.id
who_is-key row presented who h = elim (Option-cases (parsed_id row.workspace)) [
  | inl e ↦ ground (arith, e, h)
  | inr (workspace, e) ↦ ap (λ w. w.caller.key) (told (sym (known workspace e) ∙ h))
]
  where
    said : WorkspaceId → Authenticated
    said workspace = record {
      workspace = workspace;
      caller = record { key = presented.id; role = role_from row.role };
      expires_at = from_db row.expires_at;
      label = row.label;
    }

    known :
        (workspace : WorkspaceId)
        → parsed_id row.workspace ≡ some workspace
        → who_is row presented ≡ ok (said workspace)
    known workspace e = rw (who_is, e) refl

    told : {a b : Authenticated} → ok a ≡ ok b → b ≡ a
    told e = cc

authenticate-IsRevoked :
    (env : Env) (token : Text) (id : Text) (db : Database) (who : Authenticated)
    → IsRevoked id db
    → (authenticate env token db).0 ≡ ok who
    → who.caller.key ≢ id
authenticate-IsRevoked env token id db who h a same =
    let (presented, row, e, g, w, alive, current, said) = authenticate-LetIn env token db who a in
    let own = who_is-key row presented who said in
    let held = find-all (is_key presented.id) (is_revoked_if id) db.api_keys row g h in
    let mine = subst (λ k. is_key k row ≡ true) (sym own ∙ same) held.0 in
    ground (arith, mine, held, alive)

-- Once a key was revoked, no later request gets in with it: not after any further calls by operators
-- and clients, of an extension of its time or its deletion too, as long as none of them draws its
-- id for another key.
pub revoke_key-permanent :
    (env : Env) (id : Text) (db : Database) (info : KeyInfo) (calls : List (Env × Call))
    (later : Env) (token : Text) (who : Authenticated)
    → (revoke_key env id db).0 ≡ done info
    → All (λ c. NeverDraws c.0 id) calls
    → (authenticate later token (after_all calls (revoke_key env id db).1)).0 ≡ ok who
    → who.caller.key ≢ id
revoke_key-permanent env id db info calls later token who h never a =
    authenticate-IsRevoked later token id (after_all calls (revoke_key env id db).1) who
      (after_all-IsRevoked id calls (revoke_key env id db).1 never
        (revoke_key-IsRevoked env id db info h))
      a
