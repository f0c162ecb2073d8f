-- ===== src/Record/Cleanups.antt =====
-- When a shelf step that waits for the record to be stored destroys nothing that the record points
-- to: the generation is none of its live ones, the staging place is that of no ticket.
use passalong_server.Base.{◌≡◌, ◌≢◌, none, All}
use passalong_server.Map
use passalong_server.Map.Order.{text_ord}
use passalong_server.Record.{WorkspaceRecord, Cleanup, drop_generation, remove_staging}
use passalong_server.Rules.{Rules}
use passalong_server.Views.{live_generations}

abbrev pub IsHarmless : WorkspaceRecord → Cleanup → Type 0
IsHarmless rec (drop_generation g) = All (λ l. l ≢ g) (live_generations rec)
IsHarmless rec (remove_staging u) = Map.get u rec.tickets ≡ none

-- Everything that a rule has asked for so far.
abbrev pub AsksSafely : {S : Type 0} → Rules S → Type 0
AsksSafely r = All (IsHarmless r.rec) r.after
