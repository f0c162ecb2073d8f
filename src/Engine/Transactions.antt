-- ===== src/Engine/Transactions.antt =====
-- `Engine::write` as a whole: what it leaves where the rule answers, and where the rule refuses.
use passalong_server.Base.{refl, ◌≡◌, [], some, arith, ap, ◌∙◌, subst, sym}
use passalong_server.Engine.{Engine, Ledger, transact, perform_all, write, read}
use passalong_server.Error.{Result, ok, err, spins}
use passalong_server.Ids.{WorkspaceId}
use passalong_server.Map
use passalong_server.Map.Laws.{get-insert_self}
use passalong_server.Map.Order.{text_ord}
use passalong_server.Record.{WorkspaceRecord}
use passalong_server.Rules.{M, Rules}
use passalong_server.Shelf.{ItemShelf}

-- Where a rule begins: the stored record, the shelf as it is, and nothing asked for.
abbrev pub start : {S : Type 0} → Engine S → WorkspaceRecord → Rules S
start e rec = record { rec = rec; shelf = e.shelf; drawn = e.drawn; after = [] }

-- The workspace's record is there, with a property.
abbrev pub Holds : (WorkspaceRecord → Type 0) → WorkspaceId → Ledger → Type 0
Holds Q workspace ledger = (rec : WorkspaceRecord) × (Map.get workspace ledger ≡ some rec) × Q rec

module _ (sh : ItemShelf) where
  abbrev pub outcome :
      {A : Type 0} → Engine sh.State → Result A × Rules sh.State → Result A × Engine sh.State
  outcome e (ok a, r) = (
    ok a,
    record e {
      shelf = perform_all sh r.after r.shelf;
      ledger = Map.insert e.workspace r.rec e.ledger;
      drawn = r.drawn;
    },
  )
  outcome e (err x, r) = (err x, record e { shelf = r.shelf; drawn = r.drawn })
  outcome e (spins, r) = (spins, record e { shelf = r.shelf; drawn = r.drawn })

  pub write-outcome :
      {A : Type 0} (m : M sh.State A) (e : Engine sh.State) (rec : WorkspaceRecord)
      → Map.get e.workspace e.ledger ≡ some rec
      → write sh m e ≡ outcome e (m (start e rec))
  unfolding write
  write-outcome m e rec h = rw (h, transact) (ground arith)

  outcome-Holds :
      {A : Type 0} (Q : WorkspaceRecord → Type 0) (e : Engine sh.State) (rec : WorkspaceRecord)
      → Map.get e.workspace e.ledger ≡ some rec
      → Q rec
      → (x : Result A × Rules sh.State) → Q x.1.rec
      → Holds Q (outcome e x).1.workspace (outcome e x).1.ledger
  outcome-Holds Q e rec h q (ok a, r) p = (r.rec, get-insert_self e.workspace r.rec e.ledger, p)
  outcome-Holds Q e rec h q (err x, r) p = (rec, h, q)
  outcome-Holds Q e rec h q (spins, r) p = (rec, h, q)

  -- What every rule keeps of a record, a transaction keeps of the stored one.
  pub write-Holds :
      {A : Type 0} (Q : WorkspaceRecord → Type 0) (m : M sh.State A) (e : Engine sh.State)
      → ((r : Rules sh.State) → Q r.rec → Q (m r).1.rec)
      → Holds Q e.workspace e.ledger
      → Holds Q (write sh m e).1.workspace (write sh m e).1.ledger
  write-Holds Q m e keep (rec, h, q) =
      rw (write-outcome m e rec h) (outcome-Holds Q e rec h q (m (start e rec)) (keep _ q))

  -- A read stores nothing.
  pub read-ledger :
      {A : Type 0} (m : M sh.State A) (e : Engine sh.State)
      → ((read sh m e).1.ledger ≡ e.ledger) × ((read sh m e).1.workspace ≡ e.workspace)
  unfolding read
  read-ledger m e = ground arith

  pub read-Holds :
      {A : Type 0} (Q : WorkspaceRecord → Type 0) (m : M sh.State A) (e : Engine sh.State)
      → Holds Q e.workspace e.ledger
      → Holds Q (read sh m e).1.workspace (read sh m e).1.ledger
  read-Holds Q m e h = let same = read-ledger m e in rw (same.0, same.1) h

  outcome-answered :
      {A : Type 0} (Q : WorkspaceRecord → Type 0) (e : Engine sh.State)
      (x : Result A × Rules sh.State) (a : A)
      → (outcome e x).0 ≡ ok a
      → (x.0 ≡ ok a → Q x.1.rec)
      → Holds Q (outcome e x).1.workspace (outcome e x).1.ledger
  outcome-answered Q e (ok b, r) a h p = (r.rec, get-insert_self e.workspace r.rec e.ledger, p h)
  outcome-answered Q e (err x, r) a h p = ground arith
  outcome-answered Q e (spins, r) a h p = ground arith

  -- What a rule that answers leaves of the record is what is stored.
  pub write-answered :
      {A : Type 0} (Q : WorkspaceRecord → Type 0) (m : M sh.State A) (e : Engine sh.State)
      (rec : WorkspaceRecord) (a : A)
      → Map.get e.workspace e.ledger ≡ some rec
      → (write sh m e).0 ≡ ok a
      → ((m (start e rec)).0 ≡ ok a → Q (m (start e rec)).1.rec)
      → Holds Q (write sh m e).1.workspace (write sh m e).1.ledger
  write-answered Q m e rec a h answered = rw (write-outcome m e rec h) (
      outcome-answered Q e (m (start e rec)) a
        (ap (λ x. x.0) (sym (write-outcome m e rec h)) ∙ answered))

  -- A transaction that is answered or refused and changes neither the stored record nor the shelf.
  abbrev pub Unmoved :
      {A : Type 0} → Engine sh.State → Result A → Result A × Engine sh.State → Type 0
  Unmoved e answer x =
      (x.0 ≡ answer)
      × (x.1.shelf ≡ e.shelf)
      × (Map.get e.workspace x.1.ledger ≡ Map.get e.workspace e.ledger)

  outcome-Unmoved :
      {A : Type 0} (e : Engine sh.State) (rec : WorkspaceRecord) (answer : Result A)
      → Map.get e.workspace e.ledger ≡ some rec
      → Unmoved e answer (outcome e (answer, start e rec))
  unfolding perform_all
  outcome-Unmoved e rec (ok a) h = (refl, refl, get-insert_self e.workspace rec e.ledger ∙ sym h)
  outcome-Unmoved e rec (err x) h = (refl, refl, refl)
  outcome-Unmoved e rec spins h = (refl, refl, refl)

  pub write-Unmoved :
      {A : Type 0} (m : M sh.State A) (e : Engine sh.State) (rec : WorkspaceRecord)
      (answer : Result A)
      → Map.get e.workspace e.ledger ≡ some rec
      → m (start e rec) ≡ (answer, start e rec)
      → Unmoved e answer (write sh m e)
  write-Unmoved m e rec answer h same =
      subst (Unmoved e answer) (sym (write-outcome m e rec h ∙ ap (outcome e) same))
        (outcome-Unmoved e rec answer h)
