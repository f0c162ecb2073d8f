-- ===== src/Control/Runs/Changes.antt =====
use passalong_server.Ids.{Text-discrete}
use passalong_server.Control.Runs.{
  Call, after, create_workspace_call, delete_workspace_call, create_key_call, extend_key_call,
  revoke_key_call, delete_key_call, prune_keys_call, authenticate_call,
}
use passalong_server.Control.Authenticate.{
  set_last_used, authenticate, note_use, admit, authenticate_key, is_last_use_stale, is_revoked,
  admit_right, right_row,
}
use passalong_server.Control.Keys.{
  insert_key, Change, set_expiry, set_revoked, delete_where_null, is_stale, draw_key_from,
  create_key, change_key, extend_key, revoke_key, delete_key, prune_keys, note_pruned, add_key,
  expiry, key, key_fuel, new_key, is_key,
}
use passalong_server.Auth.{generate_key, ApiKey, parse_key}
use passalong_server.Control.Workspaces.{
  create_workspace, insert_workspace, create_free, valid_name, new_workspace, delete_workspace,
  has_id, has_name,
}
use passalong_server.Control.{
  Env, Database, Text, WorkspaceRow, M, AuditRow, note, WorkspaceId, KeyRow, ℤ, WorkspaceInfo, Role,
  done, to_db, KeyInfo, ◌>>◌, execute, from_db, is_past, pure, Outcome,
}
use passalong_server.Control.Keeps.{
  Leaves, execute-Leaves, then-Leaves, transaction-Leaves, bind-Leaves, query-Leaves,
  workspace-Leaves, key-Leaves, or_before-Leaves, bind-saw_Leaves,
}
-- Which changes the operations are made of: what holds of each of these holds of every operation.
use passalong_server.Base.{
  ℕ, ◌≡◌, refl, Bool, true, false, Option, none, some, arith, inl, inr, [], ◌∷◌, Bool-cases, subst,
  ◌⊎◌, filter, not, suc, zero, ltb, ◌-◌, ◌+◌, Option-cases, any, ap, ◌&&◌, find, sym, ◌∙◌, ◌++◌,
  holds,
}

-- The id of a key is one that was drawn.
abbrev pub IsDrawn : Env → Text → Type 0
IsDrawn env id = (n : ℕ) × (id ≡ (generate_key (env.draw_key n)).id)

pub record Laws (R : Database → Database → Type 0) (env : Env) : Type 0 where
  pub same : (db : Database) → R db db
  pub both : (a b c : Database) → R a b → R b c → R a c
  pub inserts_workspace :
      (row : WorkspaceRow) (name : Text) (db : Database)
      → row.name ≡ some name
      → any (has_id row.id) db.workspaces ≡ false
      → any (has_name name) db.workspaces ≡ false
      → R db (record db { workspaces = db.workspaces ++ row ∷ [] })
  pub deletes_rows :
      (id : WorkspaceId) (db : Database)
      → R db (record db {
        workspaces = filter (λ row. not (has_id id row)) db.workspaces;
        api_keys = filter (λ row. not (holds (Text-discrete row.workspace id))) db.api_keys;
      })
  pub inserts_key :
      (row : KeyRow) (db : Database)
      → IsDrawn env row.key_id
      → any (is_key row.key_id) db.api_keys ≡ false
      → any (has_id row.workspace) db.workspaces ≡ true
      → R db (record db { api_keys = db.api_keys ++ row ∷ [] })
  pub notes : (row : AuditRow) (db : Database) → R db (record db { audit = row ∷ db.audit })
  pub changes :
      (change : Change) (id : Text) (value : Option ℤ) (db : Database)
      → ((change ≡ set_expiry) ⊎ ((change ≡ set_revoked) ⊎ (change ≡ delete_where_null)))
      → R db (record db { api_keys = change id value db.api_keys })
  pub prunes :
      (before : ℤ) (db : Database)
      → R db (record db { api_keys = filter (λ row. not (is_stale before row)) db.api_keys })
  pub uses : (id : Text) (now : ℕ) (db : Database) → R db (set_last_used id now db)

module _ (R : Database → Database → Type 0) (env : Env) (laws : Laws R env) where
  abbrev L : {A : Type 0} → M A → Type 0
  L m = Leaves R laws.same laws.both m

  written : {a b : Database} → some a ≡ some b → a ≡ b
  written e = cc

  note-Leaves : (step : ℕ) (row : AuditRow) → L (note env step row)
  note-Leaves step row =
      execute-Leaves R laws.same laws.both env step _
        λ db next e. subst (λ d. R db d) (written e) (laws.notes row db)

  insert_workspace-R :
      (row : WorkspaceRow) (name : Text) (db next : Database)
      → row.name ≡ some name
      → insert_workspace row name db ≡ some next
      → R db next
  insert_workspace-R row name db next named e =
      elim (Bool-cases (any (has_id row.id) db.workspaces)) [
        | inl twice ↦ ground (arith, twice, e)
        | inr new ↦ elim (Bool-cases (any (has_name name) db.workspaces)) [
          | inl taken ↦ ground (arith, new, taken, e)
          | inr free ↦
              subst (λ d. R db d) (written (sym (inserted new free) ∙ e))
                (laws.inserts_workspace row name db named new free)
        ]
      ]
    where
      inserted :
          any (has_id row.id) db.workspaces ≡ false
          → any (has_name name) db.workspaces ≡ false
          → insert_workspace row name db
            ≡ some (record db { workspaces = db.workspaces ++ row ∷ [] })
      inserted new free = rw (new, free, insert_workspace) refl

  insert_key-R :
      (row : KeyRow) (db next : Database)
      → IsDrawn env row.key_id
      → insert_key row db ≡ some next
      → R db next
  insert_key-R row db next drawn e = elim (Bool-cases (any (is_key row.key_id) db.api_keys)) [
    | inl twice ↦ ground (arith, twice, e)
    | inr new ↦ elim (Bool-cases (any (has_id row.workspace) db.workspaces)) [
      | inl there ↦
          subst (λ d. R db d) (written (sym (inserted new there) ∙ e))
            (laws.inserts_key row db drawn new there)
      | inr nowhere ↦ ground (arith, new, nowhere, e)
    ]
  ]
    where
      inserted :
          any (is_key row.key_id) db.api_keys ≡ false
          → any (has_id row.workspace) db.workspaces ≡ true
          → insert_key row db ≡ some (record db { api_keys = db.api_keys ++ row ∷ [] })
      inserted new there = rw (new, there, insert_key) refl

  create_free-Leaves :
      (name : Text) (quota : Option ℕ) (taken : Bool) → L (create_free env name quota taken)
  create_free-Leaves name quota true = λ db. laws.same db
  create_free-Leaves name quota false =
      then-Leaves R laws.same laws.both _ _
        (execute-Leaves R laws.same laws.both env 2 _
          λ db next e. insert_workspace-R (new_workspace env name quota) name db next refl e)
        (then-Leaves R laws.same laws.both _ _ (note-Leaves 3 _) (λ db. laws.same db))

  create_workspace-Leaves : (name : Text) (quota : Option ℕ) → L (create_workspace env name quota)
  unfolding create_workspace
  create_workspace-Leaves name quota db = elim (Bool-cases (valid_name name)) [
    | inl e ↦ rw e (
        transaction-Leaves R laws.same laws.both env _
          (bind-Leaves R laws.same laws.both _ _ (query-Leaves R laws.same laws.both env 1 _)
            (create_free-Leaves name quota))
          db)
    | inr e ↦ rw e (laws.same db)
  ]

  delete_workspace-Leaves : (name : Text) → L (delete_workspace env name)
  unfolding delete_workspace
  delete_workspace-Leaves name =
      bind-Leaves R laws.same laws.both _ _ (workspace-Leaves R laws.same laws.both env 1 name)
        λ found. transaction-Leaves R laws.same laws.both env _ (
          then-Leaves R laws.same laws.both _ _
            (execute-Leaves R laws.same laws.both env 2 _
              λ db next e. subst (λ d. R db d) (written e) (laws.deletes_rows found.id db))
            (then-Leaves R laws.same laws.both _ _ (note-Leaves 3 _) (λ db. laws.same db)))

  -- The key that was found is one that was drawn, and the tables are as they were.
  draw_key_from-IsDrawn :
      (fuel n : ℕ) (db mid : Database) (key : ApiKey)
      → draw_key_from fuel env n db ≡ (done key, mid)
      → IsDrawn env key.id
  unfolding draw_key_from
  draw_key_from-IsDrawn zero n db mid key h = ground arith
  draw_key_from-IsDrawn (suc fuel) n db mid key h = elim (Bool-cases (env.fails (1000 + n))) [
    | inl e ↦ ground (arith, e, h)
    | inr e ↦ elim (Bool-cases (any (is_key (generate_key (env.draw_key n)).id) db.api_keys)) [
      | inl known ↦ draw_key_from-IsDrawn fuel (suc n) db mid key (ground (arith, e, known, h))
      | inr free ↦ (n, ap (λ k. k.id) (drawn (sym (drew e free) ∙ h)))
    ]
  ]
    where
      drew :
          env.fails (1000 + n) ≡ false
          → any (is_key (generate_key (env.draw_key n)).id) db.api_keys ≡ false
          → draw_key_from (suc fuel) env n db ≡ (done (generate_key (env.draw_key n)), db)
      drew e free = rw (e, free, draw_key_from) refl

      drawn :
          {a b : ApiKey} {x y : Database}
          → ◌≡◌ {A = Outcome ApiKey × Database} (done a, x) (done b, y)
          → b ≡ a
      drawn e = cc

  draw_key_from-Leaves : (fuel n : ℕ) → L (draw_key_from fuel env n)
  unfolding draw_key_from
  draw_key_from-Leaves zero n db = laws.same db
  draw_key_from-Leaves (suc fuel) n db = elim (Bool-cases (env.fails (1000 + n))) [
    | inl e ↦ rw e (laws.same db)
    | inr e ↦ elim (Bool-cases (any (is_key (generate_key (env.draw_key n)).id) db.api_keys)) [
      | inl known ↦ rw (e, known) (draw_key_from-Leaves fuel (suc n) db)
      | inr free ↦ rw (e, free) (laws.same db)
    ]
  ]

  insert_key-Leaves :
      (row : KeyRow) (line : AuditRow) (answer : ApiKey × KeyInfo)
      → IsDrawn env row.key_id
      → L (do execute env 101 (insert_key row); note env 102 line; pure answer)
  insert_key-Leaves row line answer drawn =
      then-Leaves R laws.same laws.both (execute env 101 (insert_key row)) _
        (execute-Leaves R laws.same laws.both env 101 (insert_key row)
          λ db next w. insert_key-R row db next drawn w)
        (then-Leaves R laws.same laws.both _ _ (note-Leaves 102 line) (λ d. laws.same d))

  add_key-Leaves :
      (found : WorkspaceInfo) (label : Text) (role : Role) (expires_at : Option ℕ)
      → L (add_key env found label role expires_at)
  add_key-Leaves found label role expires_at =
      bind-saw_Leaves R laws.same laws.both _ _ (λ db. draw_key_from-Leaves (key_fuel db) 0 db)
        λ key db mid e.
          insert_key-Leaves (new_key env found.id label role expires_at key) _ _
            (draw_key_from-IsDrawn (key_fuel db) 0 db mid key e) mid

  create_key-Leaves :
      (name label : Text) (role : Role) (expires_in : Option ℕ)
      → L (create_key env name label role expires_in)
  unfolding create_key
  create_key-Leaves name label role expires_in =
      bind-Leaves R laws.same laws.both _ _ (workspace-Leaves R laws.same laws.both env 1 name)
        λ found.
          transaction-Leaves R laws.same laws.both env _
            (add_key-Leaves found label role (expiry (env.clock 0) expires_in))

  change_key-Leaves :
      (now : ℕ) (id action : Text) (change : Change) (value : Option ℤ)
      → ((change ≡ set_expiry) ⊎ ((change ≡ set_revoked) ⊎ (change ≡ delete_where_null)))
      → L (change_key env now id action change value)
  unfolding change_key
  change_key-Leaves now id action change value kind =
      transaction-Leaves R laws.same laws.both env _ (
        bind-Leaves R laws.same laws.both _ _ (key-Leaves R laws.same laws.both env 1 id) λ before.
          then-Leaves R laws.same laws.both _ _
            (execute-Leaves R laws.same laws.both env 2 _
              λ db next e. subst (λ d. R db d) (written e) (laws.changes change id value db kind))
            (then-Leaves R laws.same laws.both _ _ (note-Leaves 3 _)
              (or_before-Leaves R laws.same laws.both before (key env 4 id))))

  extend_key-Leaves : (id : Text) (expires_in : Option ℕ) → L (extend_key env id expires_in)
  unfolding extend_key
  extend_key-Leaves id none = change_key-Leaves _ id _ set_expiry _ (inl refl)
  extend_key-Leaves id (some secs) = change_key-Leaves _ id _ set_expiry _ (inl refl)

  revoke_key-Leaves : (id : Text) → L (revoke_key env id)
  unfolding revoke_key
  revoke_key-Leaves id = change_key-Leaves _ id _ set_revoked _ (inr (inl refl))

  delete_key-Leaves : (id : Text) → L (delete_key env id)
  unfolding delete_key
  delete_key-Leaves id = change_key-Leaves _ id _ delete_where_null _ (inr (inr refl))

  prune_keys-Leaves : (older_than : ℕ) → L (prune_keys env older_than)
  unfolding prune_keys
  prune_keys-Leaves older_than = transaction-Leaves R laws.same laws.both env _ (
      bind-Leaves R laws.same laws.both _ _ (query-Leaves R laws.same laws.both env 1 _) λ pruned.
        then-Leaves R laws.same laws.both _ _
          (execute-Leaves R laws.same laws.both env 1 _ λ db next e.
            subst (λ d. R db d) (written e) (laws.prunes (to_db (env.clock 0 - older_than)) db))
          (then-Leaves R laws.same laws.both _ _ (note_pruned-Leaves pruned) (λ d. laws.same d)))
    where
      note_pruned-Leaves : (pruned : ℕ) → L (note_pruned env pruned)
      note_pruned-Leaves pruned db = elim (Bool-cases (ltb 0 pruned)) [
        | inl e ↦ rw e (note-Leaves 3 _ db)
        | inr e ↦ rw e (laws.same db)
      ]

  note_use-Leaves :
      (id : Text) (now : ℕ) (row : KeyRow) → (db : Database) → R db (note_use env id now row db)
  note_use-Leaves id now row db =
      elim (Bool-cases (is_last_use_stale (from_db row.last_used_at) now && not (env.fails 2))) [
        | inl e ↦ rw (e, note_use) (laws.uses id now db)
        | inr e ↦ rw (e, note_use) (laws.same db)
      ]

  admit-Leaves :
      (presented : ApiKey) (now : ℕ) (row : KeyRow) (db : Database)
      → R db (admit env presented now row db).1
  admit-Leaves presented now row db = elim (Bool-cases (is_revoked row)) [
    | inl e ↦ rw (e, admit) (laws.same db)
    | inr e ↦ elim (Bool-cases (is_past (from_db row.expires_at) now)) [
      | inl past ↦ rw (e, past, admit) (laws.same db)
      | inr still ↦ rw (e, still, admit) (note_use-Leaves presented.id now row db)
    ]
  ]

  authenticate_key-Leaves :
      (presented : ApiKey) (db : Database) → R db (authenticate_key env presented db).1
  authenticate_key-Leaves presented db = elim (Bool-cases (env.fails 1)) [
    | inl e ↦ rw (e, authenticate_key) (laws.same db)
    | inr e ↦
        rw (e, authenticate_key)
          (right (right_row env.sha256 presented (find (is_key presented.id) db.api_keys)))
  ]
    where
      right : (row : Option KeyRow) → R db (admit_right env presented (env.clock 0) row db).1
      right none = laws.same db
      right (some row) = admit-Leaves presented (env.clock 0) row db

  authenticate-Leaves : (token : Text) (db : Database) → R db (authenticate env token db).1
  unfolding authenticate
  authenticate-Leaves token db = elim (Option-cases (parse_key token)) [
    | inl e ↦ rw (authenticate, e) (laws.same db)
    | inr (presented, e) ↦ rw (authenticate, e) (authenticate_key-Leaves presented db)
  ]

  pub after-Laws : (call : Call) (db : Database) → R db (after env call db)
  after-Laws (create_workspace_call name quota) db = create_workspace-Leaves name quota db
  after-Laws (delete_workspace_call name) db = delete_workspace-Leaves name db
  after-Laws (create_key_call name label role expires_in) db =
      create_key-Leaves name label role expires_in db
  after-Laws (extend_key_call id expires_in) db = extend_key-Leaves id expires_in db
  after-Laws (revoke_key_call id) db = revoke_key-Leaves id db
  after-Laws (delete_key_call id) db = delete_key-Leaves id db
  after-Laws (prune_keys_call older_than) db = prune_keys-Leaves older_than db
  after-Laws (authenticate_call token) db = authenticate-Leaves token db
