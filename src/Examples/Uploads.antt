-- ===== src/Examples/Uploads.antt =====
-- Uploads at concrete inputs.
use passalong_server.Base.{
  ◌%◌, List, some, ◌≤◌, ◌<◌, ◌+◌, ◌-◌, sum, map, ℕ, ℕ_discrete, ap, length, ◌≡◌, ◌≢◌, refl, true,
  false, none, arith, ◌∷◌, [],
}
use passalong_server.Error.{err, content_mismatch, ok}
use passalong_server.Examples.{
  shelf, writer, other_writer, stored_item, env_at, upload, request, sealed_workspace, started,
  running, Env, sealed_workspace-IsWellFormed, new_item, old_key,
}
use passalong_server.Ids.{
  Bytes, hex, hex_digit, Text, Text-discrete, generate, is_lower_hex, parse_item_id,
  parse_upload_id, parse_workspace_id,
}
use passalong_server.Ids.Laws.{IsItemId, parse-generate, parse_item_id_sound}
use passalong_server.Map
use passalong_server.Rules.{and_then}
use passalong_server.Rules.Post.{Post}
use passalong_server.Record.{PutOutcome, KeyId-discrete, current}
use passalong_server.Upload.{staged_bytes, live_ticket, tombstone, upload_target, checks_content}
use passalong_server.Upload.Begin.{draw_id, draw_fuel, open_upload}
use passalong_server.Upload.Commit.{
  commit_upload, commit_live, answer_outcome, settle_staged, commit_staged, publish_or_share,
  book_published, finish_upload,
}
use passalong_server.Shelf.{Chunk, piece, interrupted}
use passalong_server.Shelf.Pump.{pump}
use passalong_server.Shelf.Pump.Laws.{received, pump-received}
use passalong_server.Shelf.Memory.{publish_staged}
use passalong_server.Views.{booked, optional, used_bytes, find_in, check_writable}
use passalong_server.Upload.Drawing.{draw_id-enough, IsFresh}
use passalong_server.Upload.Quota.{staged_bytes-used_bytes, Within, open_upload-Within}
use passalong_server.Api.{Request, changes, cleans, deletes, run}
use passalong_server.Api.Replays.{commit_upload-replay}
use passalong_server.Engine.{write, transact}
use passalong_server.Engine.Transactions.{Unmoved}

abbrev outcome : PutOutcome
outcome = record { id = request.id; created = true; staged = false }

commits :
    (write shelf (commit_upload shelf (env_at 10) writer upload) (running sealed_workspace)).0
    ≡ ok outcome
unfolding commit_upload and_then tombstone Map.get live_ticket commit_live answer_outcome
    settle_staged commit_staged publish_or_share book_published finish_upload find_in upload_target
    check_writable checks_content publish_staged Map.contains_key Map.insert Map.remove
    Text-discrete KeyId-discrete ℕ_discrete write transact
commits = refl

-- In between, the janitor cleans up, and somebody deletes the item.
abbrev in_between : List (Env × Request)
in_between =
    (env_at 20, changes cleans)
    ∷ (env_at 30, changes (deletes other_writer current new_item (some old_key)))
    ∷ []

commit_upload-replay_example :
    let then =
      run shelf
        (write shelf (commit_upload shelf (env_at 10) writer upload) (running sealed_workspace)).1
        in_between in
    Unmoved shelf then
      (ok outcome)
      (write shelf (commit_upload shelf (env_at 40) writer upload) then)
unfolding tombstone Map.get
commit_upload-replay_example =
    commit_upload-replay shelf (env_at 10) writer upload (running sealed_workspace) sealed_workspace
      outcome in_between (env_at 40) refl sealed_workspace-IsWellFormed refl commits
      (omega arith, (omega arith, tt)) (omega arith)

open_upload-Within_example :
    Post
      (Within shelf (env_at 10) writer request 0)
      (open_upload shelf (env_at 10) writer request 0 (started sealed_workspace))
open_upload-Within_example =
    open_upload-Within shelf (env_at 10) writer request 0 (omega arith) (started sealed_workspace)

-- Sixteen bytes each time, the first of which counts.
abbrev counting : ℕ → Bytes
counting n = n ∷ 0 ∷ 0 ∷ 0 ∷ 0 ∷ 0 ∷ 0 ∷ 0 ∷ 0 ∷ 0 ∷ 0 ∷ 0 ∷ 0 ∷ 0 ∷ 0 ∷ 0 ∷ []

low_digit : (i j : ℕ) → i < 2 → j < 2 → hex_digit (i % 16) ≡ hex_digit (j % 16) → i ≡ j
low_digit i j a b e = ground arith

second : Text → ℕ
second [] = 0
second (a ∷ []) = 0
second (a ∷ b ∷ rest) = b

counting-IsFresh : IsFresh counting 0 2
unfolding hex second
counting-IsFresh i j a b c d e = low_digit i j (omega arith) (omega arith) (ap second e)

draw_id-enough_example : draw_id (draw_fuel sealed_workspace) counting sealed_workspace 0 ≢ none
draw_id-enough_example = draw_id-enough counting sealed_workspace 0 counting-IsFresh

abbrev drawn : Bytes
drawn = 1 ∷ 2 ∷ 3 ∷ 4 ∷ 5 ∷ 6 ∷ 7 ∷ 255 ∷ []

parse-generate_example :
    (length drawn ≡ 16 → parse_upload_id (generate drawn) ≡ ok (generate drawn))
    × (length drawn ≡ 8 → parse_workspace_id (generate drawn) ≡ ok (generate drawn))
parse-generate_example = parse-generate drawn

parses : parse_item_id stored_item ≡ ok stored_item
unfolding parse_item_id is_lower_hex
parses = refl

parse_item_id_sound_example : (stored_item ≡ stored_item) × IsItemId stored_item
parse_item_id_sound_example = parse_item_id_sound stored_item stored_item parses

staged_bytes-used_bytes_example :
    (staged_bytes sealed_workspace ≤ used_bytes sealed_workspace)
    × (used_bytes sealed_workspace - staged_bytes sealed_workspace
        ≡ booked sealed_workspace 0 + sum (map (booked sealed_workspace) (optional none)))
staged_bytes-used_bytes_example = staged_bytes-used_bytes sealed_workspace

abbrev stream : List Chunk
stream = piece (1 ∷ 2 ∷ []) ∷ interrupted ∷ piece (3 ∷ []) ∷ []

holds_three : received stream ≡ some (1 ∷ 2 ∷ 3 ∷ [])
unfolding received
holds_three = refl

pump-received_example :
    (3 ≤ 5 → pump stream 5 0 [] ≡ (ok 3, 1 ∷ 2 ∷ 3 ∷ []))
    × (5 < 3 → (pump stream 5 0 []).0 ≡ err content_mismatch)
pump-received_example = pump-received stream 5 (1 ∷ 2 ∷ 3 ∷ []) holds_three
