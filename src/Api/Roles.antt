-- ===== src/Api/Roles.antt =====
-- What a caller that may only read can change.
use passalong_server.Api.{
  Change, deletes, enables, freshens, replaces, begins_upload, commits_upload, aborts_upload,
  begins_rewrite, heartbeats, takes_over, commits_rewrite, aborts_rewrite, operator_aborts, cleans,
  repairs, rule_of,
}
use passalong_server.Base.{◌≡◌, arith}
use passalong_server.Error.{err, forbidden_role}
use passalong_server.Record.{Caller, read_only}
use passalong_server.Rewrite.{
  begin_rewrite, heartbeat_rewrite, take_over_rewrite, commit_rewrite, abort_rewrite,
}
use passalong_server.Rules.{Env, Rules, and_then}
use passalong_server.Shelf.{ItemShelf}
use passalong_server.Upload.Begin.{begin_upload}
use passalong_server.Views.{must_write}
use passalong_server.Workspace.{delete_item, enable_encryption, fresh_start, replace_header, settle}

-- The operations that ask for the right to write, and who calls them. The others go by the owner of
-- an upload, or have no caller.
abbrev pub IsGuarded : Caller → Change → Type 0
IsGuarded c (deletes caller _ _ _) = caller ≡ c
IsGuarded c (enables caller _ _) = caller ≡ c
IsGuarded c (freshens caller _ _) = caller ≡ c
IsGuarded c (replaces caller _ _) = caller ≡ c
IsGuarded c (begins_upload caller _) = caller ≡ c
IsGuarded c (begins_rewrite caller _) = caller ≡ c
IsGuarded c (heartbeats caller) = caller ≡ c
IsGuarded c (takes_over caller) = caller ≡ c
IsGuarded c (commits_rewrite caller _) = caller ≡ c
IsGuarded c (aborts_rewrite caller _) = caller ≡ c
IsGuarded c (commits_upload _ _) = ⊥
IsGuarded c (aborts_upload _ _) = ⊥
IsGuarded c (operator_aborts _) = ⊥
IsGuarded c cleans = ⊥
IsGuarded c repairs = ⊥

module _ (sh : ItemShelf) where
  -- A caller that may only read is refused with `forbidden_role` by every operation that asks for the
  -- right to write: before anything else is looked at, and with nothing changed.
  pub rule_of-read_only :
      (env : Env) (caller : Caller) (c : Change) (r : Rules sh.State)
      → caller.role ≡ read_only
      → IsGuarded caller c
      → rule_of sh env c r ≡ (err forbidden_role, r)
  unfolding rule_of delete_item enable_encryption fresh_start replace_header settle begin_upload
      begin_rewrite heartbeat_rewrite take_over_rewrite commit_rewrite abort_rewrite must_write
      and_then
  rule_of-read_only env caller c r ro g = ground arith
