-- ===== src/Examples/Engines.antt =====
-- Operations as a whole, at concrete inputs.
use passalong_server.Api.{deletes, commits_upload, begins_upload, rule_of, run, changes}
use passalong_server.Api.Cleanups.{rule_of-AsksSafely}
use passalong_server.Api.Generations.{rule_of-IsWellFormed, run-IsWellFormed}
use passalong_server.Api.Roles.{rule_of-read_only}
use passalong_server.Base.{◌≡◌, refl, none, some, ◌∷◌, []}
use passalong_server.Books.Run.{Books, write-Books, rule_of-Settles}
use passalong_server.Books.{Settles}
use passalong_server.Engine.{write, open_engine}
use passalong_server.Engine.Transactions.{start}
use passalong_server.Error.{err, forbidden_role}
use passalong_server.Examples.{
  shelf, writer, reader, env_at, upload, request, stored_item, old_key, shelves, sealed_workspace,
  running, started, the_workspace, sealed_workspace-IsWellFormed, sealed_workspace-Balanced,
}
use passalong_server.Map
use passalong_server.Map.Order.{text_ord}
use passalong_server.Record.{WorkspaceRecord, current}
use passalong_server.Record.Cleanups.{AsksSafely}
use passalong_server.Record.Generations.{IsWellFormed}
use passalong_server.Rules.{and_then}
use passalong_server.Shelf.Laws.{ShelfLaws}
use passalong_server.Shelf.Memory.{memory_shelf}
use passalong_server.Shelf.Memory.Laws.{memory_laws, memory_shelf-ShelfLaws}
use passalong_server.Views.{must_write}
use passalong_server.Workspace.{delete_item}

memory_shelf-ShelfLaws_example : ShelfLaws (memory_shelf (λ bytes. bytes))
memory_shelf-ShelfLaws_example = memory_shelf-ShelfLaws (λ bytes. bytes)

write-Books_example :
    Books
      (memory_laws (λ bytes. bytes))
      (write shelf
        (rule_of shelf (env_at 10) (commits_upload writer upload))
        (running sealed_workspace)).1
unfolding Map.get
write-Books_example =
    write-Books (memory_laws (λ bytes. bytes)) (env_at 10) (commits_upload writer upload)
      (running sealed_workspace) sealed_workspace refl sealed_workspace-IsWellFormed
      sealed_workspace-Balanced

rule_of-AsksSafely_example :
    AsksSafely
      (rule_of shelf (env_at 10) (commits_upload writer upload) (started sealed_workspace)).1
rule_of-AsksSafely_example =
    rule_of-AsksSafely shelf (env_at 10) (commits_upload writer upload) (started sealed_workspace)
      sealed_workspace-IsWellFormed refl

rule_of-IsWellFormed_example :
    IsWellFormed
      (rule_of shelf (env_at 10) (commits_upload writer upload) (started sealed_workspace)).1.rec
rule_of-IsWellFormed_example =
    rule_of-IsWellFormed shelf (env_at 10) (commits_upload writer upload) (started sealed_workspace)
      sealed_workspace-IsWellFormed

run-IsWellFormed_example :
    let e =
      run shelf
        (open_engine shelf (env_at 1) shelves [] the_workspace).1
        ((env_at 2, changes (begins_upload writer request)) ∷ []) in
    (rec : WorkspaceRecord) × (Map.get e.workspace e.ledger ≡ some rec) × IsWellFormed rec
run-IsWellFormed_example =
    run-IsWellFormed shelf (env_at 1) shelves the_workspace
      ((env_at 2, changes (begins_upload writer request)) ∷ [])

rule_of-read_only_example :
    rule_of shelf
      (env_at 10)
      (deletes reader current stored_item (some old_key))
      (started sealed_workspace)
    ≡ (err forbidden_role, started sealed_workspace)
rule_of-read_only_example =
    rule_of-read_only shelf (env_at 10) reader (deletes reader current stored_item (some old_key))
      (started sealed_workspace) refl refl

refused :
    (delete_item shelf reader current stored_item none
      (start (running sealed_workspace) sealed_workspace)).0
    ≡ err forbidden_role
unfolding delete_item and_then must_write
refused = refl

rule_of-Settles_example :
    Settles
      (memory_laws (λ bytes. bytes))
      shelves
      (rule_of shelf (env_at 10) (commits_upload writer upload) (started sealed_workspace))
rule_of-Settles_example =
    rule_of-Settles (memory_laws (λ bytes. bytes)) shelves (env_at 10)
      (commits_upload writer upload) (started sealed_workspace) sealed_workspace-IsWellFormed
      (sealed_workspace-Balanced, λ g. refl)
