-- ===== src/Rules.antt =====
-- The struct `Rules` of crates/passalong-server-core/src/workspace.rs and the operations' monad. An
-- operation may be refused after it has touched the shelf, so the state comes back beside a refusal
-- too; what becomes of the record then is the engine's to say.
pub mod Keeps
pub mod Post
use passalong_server.Base.{ℕ, List, [], ◌∷◌, ◌++◌, Option}
use passalong_server.Error.{ApiError, Result, ok, err, spins}
use passalong_server.Ids.{Bytes, Text}
use passalong_server.Record.{WorkspaceRecord, Limits, Cleanup}

-- What a rule reads and cannot change. `draws n` is what the random source fills the n-th time;
-- `from_slice` is the part of `serde_json::from_slice` that a rule looks at.
pub record MetaSays : Type 0 where
  pub sha256 : Option Text
  pub size : Option ℕ

pub record Env : Type 0 where
  pub now : ℕ
  pub limits : Limits
  pub draws : ℕ → Bytes
  pub from_slice : Bytes → Option MetaSays

-- `drawn` counts the fills so far.
pub record Rules (S : Type 0) : Type 0 where
  pub rec : WorkspaceRecord
  pub shelf : S
  pub drawn : ℕ
  pub after : List Cleanup

abbrev pub M : Type 0 → Type 0 → Type 0
M S A = Rules S → Result A × Rules S

module _ {S A B : Type 0} where
  unfoldable pub and_then : Result A × Rules S → (A → M S B) → Result B × Rules S
  and_then (ok a, r) f = f a r
  and_then (err e, r) f = (err e, r)
  and_then (spins, r) f = (spins, r)

  infixl 5 ◌>>=◌ ◌>>◌
  abbrev pub ◌>>=◌ : M S A → (A → M S B) → M S B
  ◌>>=◌ m f r = and_then (m r) f

  abbrev pub ◌>>◌ : M S A → M S B → M S B
  m >> k = m >>= λ _. k

module _ {S A : Type 0} where
  abbrev pub pure : A → M S A
  pure a r = (ok a, r)

  abbrev pub refuse : ApiError → M S A
  refuse e r = (err e, r)

  abbrev pub lift : Result A → M S A
  lift res r = (res, r)

  -- What the record says.
  abbrev pub asks : (WorkspaceRecord → Result A) → M S A
  asks f r = (f r.rec, r)

  -- A method of the shelf that only looks, and one that changes it.
  abbrev pub looks : (S → Result A) → M S A
  looks f r = (f r.shelf, r)

  abbrev pub on_shelf : (S → Result A × S) → M S A
  on_shelf f r = ((f r.shelf).0, record r { shelf = (f r.shelf).1 })

module _ {S : Type 0} where
  abbrev pub update : (WorkspaceRecord → WorkspaceRecord) → M S (Unit {0})
  update f r = (ok tt, record r { rec = f r.rec })

  -- `self.after.push`.
  abbrev pub push_after : Cleanup → M S (Unit {0})
  push_after c r = (ok tt, record r { after = r.after ++ c ∷ [] })
