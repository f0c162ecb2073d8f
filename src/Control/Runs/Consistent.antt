-- ===== src/Control/Runs/Consistent.antt =====
-- What the schema's keys and references say of the tables.
use passalong_server.Control.Runs.{Call, after_all, after}
use passalong_server.Control.Runs.Changes.{Laws, after-Laws}
use passalong_server.Ids.{Text-discrete}
use passalong_server.Control.Keys.{
  is_key, update_key, Change, set_expiry, set_revoked, delete_where_null, coalesce, is_null,
  is_stale,
}
use passalong_server.Control.Workspaces.{has_id, has_name}
use passalong_server.Base.{
  ◌≡◌, refl, Bool, true, false, Option, none, some, arith, inl, inr, List, [], ◌∷◌, ◌++◌, sym, ◌∙◌,
  subst, not, any, filter, all, ◌&&◌, holds, distinct, any-snoc, Bool-cases, distinct-filter,
  if◌then◌else◌, all-filter, distinct-map, all-map, ◌⊎◌, distinct-snoc, all-snoc,
}
use passalong_server.Control.{Database, WorkspaceRow, KeyRow, Text, Env, ℤ, new_database, to_db}

-- The primary keys, the unique names, and the keys' workspaces.
abbrev pub same_id : WorkspaceRow → WorkspaceRow → Bool
same_id a b = has_id b.id a

abbrev pub same_name : WorkspaceRow → WorkspaceRow → Bool
same_name a b = elim b.name [ none ↦ false | some name ↦ has_name name a ]

abbrev pub same_key : KeyRow → KeyRow → Bool
same_key a b = is_key b.key_id a

abbrev pub is_placed : List WorkspaceRow → KeyRow → Bool
is_placed places row = any (has_id row.workspace) places

abbrev pub IsConsistent : Database → Type 0
IsConsistent db =
    (distinct same_id db.workspaces ≡ true)
    × (distinct same_name db.workspaces ≡ true)
    × (distinct same_key db.api_keys ≡ true)
    × (all (is_placed db.workspaces) db.api_keys ≡ true)

holds-swap : (a b : Text) → holds (Text-discrete a b) ≡ holds (Text-discrete b a)
holds-swap a b = elim (Text-discrete a b) as (λ d. holds d ≡ holds (Text-discrete b a)) [
  | yes e ↦ elim (Text-discrete b a) as (λ d. true ≡ holds d) [
    | yes f ↦ refl
    | no n ↦ absurd (n (sym e))
  ]
  | no n ↦ elim (Text-discrete b a) as (λ d. false ≡ holds d) [
    | yes f ↦ absurd (n (sym f))
    | no m ↦ refl
  ]
]

same_name-swap : (a b : WorkspaceRow) → same_name a b ≡ same_name b a
same_name-swap a b = named a.name b.name
  where
    named :
        (m n : Option Text)
        → (elim n [
          | none ↦ false
          | some name ↦ elim m [ none ↦ false | some given ↦ holds (Text-discrete given name) ]
        ])
          ≡ (elim m [
            | none ↦ false
            | some name ↦ elim n [ none ↦ false | some given ↦ holds (Text-discrete given name) ]
          ])
    named none none = refl
    named none (some n) = refl
    named (some m) none = refl
    named (some m) (some n) = holds-swap m n

holds-true : (a b : Text) → holds (Text-discrete a b) ≡ true → a ≡ b
holds-true a b = elim (Text-discrete a b) as (λ d. holds d ≡ true → a ≡ b) [
  | yes e ↦ λ h. e
  | no n ↦ λ h. cc
]

placed-snoc :
    (places : List WorkspaceRow) (place : WorkspaceRow) (rows : List KeyRow)
    → all (is_placed places) rows ≡ true
    → all (is_placed (places ++ place ∷ [])) rows ≡ true
placed-snoc places place [] h = refl
placed-snoc places place (row ∷ rows) h =
    ground (arith, h, any-snoc (has_id row.workspace) places place, placed-snoc places place rows)

-- A workspace of another id stays.
any-has_id-filter :
    (id other : Text) (places : List WorkspaceRow)
    → holds (Text-discrete other id) ≡ false
    → any (has_id other) places ≡ true
    → any (has_id other) (filter (λ place. not (has_id id place)) places) ≡ true
any-has_id-filter id other [] n h = h
any-has_id-filter id other (place ∷ places) n h = elim (Bool-cases (has_id id place)) [
  | inl gone ↦
      let apart =
        subst (λ i. holds (Text-discrete other i) ≡ false) (sym (holds-true place.id id gone)) n in
      ground (arith, gone, h, apart, holds-swap other place.id, any-has_id-filter id other places n)
  | inr stays ↦ ground (arith, stays, h, any-has_id-filter id other places n)
]

placed-filter :
    (id : Text) (places : List WorkspaceRow) (rows : List KeyRow)
    → all (is_placed places) rows ≡ true
    → all
        (is_placed (filter (λ place. not (has_id id place)) places))
        (filter (λ row. not (holds (Text-discrete row.workspace id))) rows)
      ≡ true
placed-filter id places [] h = refl
placed-filter id places (row ∷ rows) h =
    ground (arith, h, any-has_id-filter id row.workspace places, placed-filter id places rows)

-- A change that sets other columns.
update_key-IsConsistent :
    (other : Text) (set : KeyRow → KeyRow) (db : Database)
    → ((row : KeyRow) → (set row).key_id ≡ row.key_id)
    → ((row : KeyRow) → (set row).workspace ≡ row.workspace)
    → IsConsistent db
    → IsConsistent (record db { api_keys = update_key other set db.api_keys })
update_key-IsConsistent other set db ids places (w, n, k, p) = (
  w,
  n,
  distinct-map same_key step db.api_keys (λ a b. rw (step-id a, step-id b) refl) ∙ k,
  all-map (is_placed db.workspaces) step db.api_keys (λ row h. rw (step-place row) h) p,
)
  where
    step : KeyRow → KeyRow
    step row = if is_key other row then set row else row

    step-id : (row : KeyRow) → (step row).key_id ≡ row.key_id
    step-id row = elim (Bool-cases (is_key other row)) [
      | inl e ↦ rw e (ids row)
      | inr e ↦ rw e refl
    ]

    step-place : (row : KeyRow) → (step row).workspace ≡ row.workspace
    step-place row = elim (Bool-cases (is_key other row)) [
      | inl e ↦ rw e (places row)
      | inr e ↦ rw e refl
    ]

filter-IsConsistent :
    (q : KeyRow → Bool) (db : Database)
    → IsConsistent db
    → IsConsistent (record db { api_keys = filter q db.api_keys })
filter-IsConsistent q db (w, n, k, p) = (
  w,
  n,
  distinct-filter same_key q db.api_keys k,
  all-filter (is_placed db.workspaces) q db.api_keys p,
)

IsConsistent-Laws : (env : Env) → Laws (λ a b. IsConsistent a → IsConsistent b) env
IsConsistent-Laws env = record {
  same = λ db h. h;
  both = λ a b c f g h. g (f h);
  inserts_workspace = λ row name db named new free (w, n, k, p). (
    distinct-snoc same_id db.workspaces row (λ a b. holds-swap a.id b.id) w new,
    distinct-snoc same_name db.workspaces row same_name-swap n (rw named free),
    k,
    placed-snoc db.workspaces row db.api_keys p,
  );
  deletes_rows = λ gone db (w, n, k, p). (
    distinct-filter same_id (λ row. not (has_id gone row)) db.workspaces w,
    distinct-filter same_name (λ row. not (has_id gone row)) db.workspaces n,
    distinct-filter same_key (λ row. not (holds (Text-discrete row.workspace gone))) db.api_keys k,
    placed-filter gone db.workspaces db.api_keys p,
  );
  inserts_key = λ row db drawn new there (w, n, k, p). (
    w,
    n,
    distinct-snoc same_key db.api_keys row (λ a b. holds-swap a.key_id b.key_id) k new,
    all-snoc (is_placed db.workspaces) db.api_keys row p there,
  );
  notes = λ row db h. h;
  changes = λ change other value db kind h. changed db change other value kind h;
  prunes = λ before db h. filter-IsConsistent (λ row. not (is_stale before row)) db h;
  uses = λ other now db h.
      update_key-IsConsistent other (λ row. record row { last_used_at = some (to_db now) }) db
        (λ row. refl) (λ row. refl) h;
}
  where
    changed :
        (db : Database) (change : Change) (other : Text) (value : Option ℤ)
        → ((change ≡ set_expiry) ⊎ ((change ≡ set_revoked) ⊎ (change ≡ delete_where_null)))
        → IsConsistent db
        → IsConsistent (record db { api_keys = change other value db.api_keys })
    changed db change other value (inl e) h =
        subst (λ c. IsConsistent (record db { api_keys = c other value db.api_keys })) (sym e)
          (update_key-IsConsistent other (λ row. record row { expires_at = value }) db (λ row. refl)
            (λ row. refl) h)
    changed db change other value (inr (inl e)) h =
        subst (λ c. IsConsistent (record db { api_keys = c other value db.api_keys })) (sym e)
          (update_key-IsConsistent other
            (λ row. record row { revoked_at = coalesce row.revoked_at value }) db (λ row. refl)
            (λ row. refl) h)
    changed db change other value (inr (inr e)) h =
        subst (λ c. IsConsistent (record db { api_keys = c other value db.api_keys })) (sym e)
          (filter-IsConsistent (λ row. not (is_key other row && is_null value)) db h)

-- Whatever operators and clients do to a new database, and whichever statements fail: no two
-- workspaces have one id or one name, no two keys have one id, and every key is a key of a
-- workspace that is there.
pub after_all-IsConsistent :
    (calls : List (Env × Call)) → IsConsistent (after_all calls new_database)
after_all-IsConsistent calls = from_consistent calls new_database (refl, refl, refl, refl)
  where
    from_consistent :
        (cs : List (Env × Call)) (db : Database) → IsConsistent db → IsConsistent (after_all cs db)
    from_consistent [] db h = h
    from_consistent ((env, call) ∷ cs) db h =
        from_consistent cs (after env call db) (after-Laws _ env (IsConsistent-Laws env) call db h)
