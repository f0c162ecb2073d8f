-- ===== src/Engine.antt =====
-- The struct `Engine` of crates/passalong-server-core/src/workspace.rs over the ledger in memory
-- (ledger/memory.rs): each operation is one transaction, whose changes to the record are stored only
-- when the rule succeeds, and the removals that it asked for come after that.
pub mod Transactions
use passalong_server.Base.{ℕ, List, [], ◌∷◌, none, some}
use passalong_server.Error.{Result, ok, err, spins, or_fail, not_found}
use passalong_server.Ids.{WorkspaceId}
use passalong_server.Map
use passalong_server.Map.{Map}
use passalong_server.Map.Order.{text_ord}
use passalong_server.Record.{WorkspaceRecord, new_record, Cleanup, drop_generation, remove_staging}
use passalong_server.Rules.{M, Env, Rules}
use passalong_server.Shelf.{ItemShelf}
use passalong_server.Upload.Janitor.{reconcile}

-- `MemoryLedger`.
abbrev pub Ledger : Type 0
Ledger = Map WorkspaceId WorkspaceRecord

-- `entry(workspace).or_default()`.
unfoldable pub create : WorkspaceId → Ledger → Ledger
create workspace ledger = elim (Map.get workspace ledger) [
  | none ↦ Map.insert workspace new_record ledger
  | some _ ↦ ledger
]

unfoldable pub load : WorkspaceId → Ledger → Result WorkspaceRecord
load workspace ledger = or_fail not_found (Map.get workspace ledger)

-- What a rule changes: a ledger's record is stored only beside an answer, and what else the rule
-- touched, `X`, is as it left it.
abbrev pub stores :
    {A X : Type 0} → WorkspaceId → Ledger → Result A × WorkspaceRecord × X → Result A × Ledger × X
stores workspace ledger (ok a, rec, x) = (ok a, Map.insert workspace rec ledger, x)
stores workspace ledger (err e, rec, x) = (err e, ledger, x)
stores workspace ledger (spins, rec, x) = (spins, ledger, x)

unfoldable pub transact :
    {A X : Type 0}
    → WorkspaceId
    → (WorkspaceRecord → X → Result A × WorkspaceRecord × X)
    → Ledger
    → X
    → Result A × Ledger × X
transact workspace rule ledger x = elim (Map.get workspace ledger) [
  | none ↦ (err not_found, ledger, x)
  | some rec ↦ stores workspace ledger (rule rec x)
]

pub record Engine (S : Type 0) : Type 0 where
  pub shelf : S
  pub ledger : Ledger
  pub workspace : WorkspaceId
  pub drawn : ℕ

-- What a rule touches beside the record.
pub record Touched (S : Type 0) : Type 0 where
  pub shelf : S
  pub drawn : ℕ
  pub after : List Cleanup

-- The rule at work on a record.
abbrev pub at_work :
    {S A : Type 0} → M S A → WorkspaceRecord → Touched S → Result A × WorkspaceRecord × Touched S
at_work rule rec t =
    let (answer, r) = rule (record { rec = rec; shelf = t.shelf; drawn = t.drawn; after = [] }) in
    (answer, r.rec, record { shelf = r.shelf; drawn = r.drawn; after = r.after })

module _ (sh : ItemShelf) where
  -- One removal; a failure is the janitor's to finish.
  unfoldable pub perform : Cleanup → sh.State → sh.State
  perform (drop_generation generation) s = (sh.drop_generation generation s).1
  perform (remove_staging upload) s = (sh.stage_remove upload s).1

  unfoldable pub perform_all : List Cleanup → sh.State → sh.State
  unfolding perform
  perform_all [] s = s
  perform_all (c ∷ cs) s = perform_all cs (perform c s)

  -- `answer?` leaves before the removals.
  abbrev pub finished_with :
      {A : Type 0}
      → Engine sh.State
      → Result A × Ledger × Touched sh.State
      → Result A × Engine sh.State
  finished_with e (ok a, ledger, t) =
      (ok a, record e { ledger = ledger; shelf = perform_all t.after t.shelf; drawn = t.drawn })
  finished_with e (err x, ledger, t) =
      (err x, record e { ledger = ledger; shelf = t.shelf; drawn = t.drawn })
  finished_with e (spins, ledger, t) =
      (spins, record e { ledger = ledger; shelf = t.shelf; drawn = t.drawn })

  unfoldable pub write : {A : Type 0} → M sh.State A → Engine sh.State → Result A × Engine sh.State
  unfolding transact perform_all
  write rule e = finished_with e (
      transact e.workspace (at_work rule) e.ledger
        (record { shelf = e.shelf; drawn = e.drawn; after = [] }))

  -- A copy of the record, of which nothing is stored.
  abbrev read_of :
      {A : Type 0} → Engine sh.State → Result A × Rules sh.State → Result A × Engine sh.State
  read_of e (answer, r) = (answer, record e { shelf = r.shelf; drawn = r.drawn })

  unfoldable pub read : {A : Type 0} → M sh.State A → Engine sh.State → Result A × Engine sh.State
  unfolding load
  read rule e = elim (load e.workspace e.ledger) [
    | ok rec ↦ read_of e (rule (record { rec = rec; shelf = e.shelf; drawn = e.drawn; after = [] }))
    | err x ↦ (err x, e)
    | spins ↦ (spins, e)
  ]

  -- `Engine::open`: the record is there, and what the last process left half done is repaired.
  unfoldable pub open_engine :
      Env → sh.State → Ledger → WorkspaceId → Result (Unit {0}) × Engine sh.State
  unfolding create write reconcile
  open_engine env s ledger workspace =
      write (reconcile sh env)
        (record { shelf = s; ledger = create workspace ledger; workspace = workspace; drawn = 0 })
