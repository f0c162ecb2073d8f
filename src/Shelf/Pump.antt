-- ===== src/Shelf/Pump.antt =====
-- `pump` of crates/passalong-server-core/src/shelf/mod.rs. Its `sink` collects the bytes, as that of
-- the shelf in memory does, and the hasher is given the same bytes.
pub mod Laws
use passalong_server.Base.{ℕ, ◌+◌, List, [], ◌∷◌, ◌++◌, ltb, ◌==◌, if◌then◌else◌, length, bytes_of}
use passalong_server.Error.{Result, ok, err, content_mismatch, invalid_request}
use passalong_server.Ids.{Bytes}
use passalong_server.Shelf.{Chunk, piece, interrupted, failed}

-- The total and the bytes sunk so far go round the loop. A call that yields no byte is the end.
unfoldable pub pump : List Chunk → ℕ → ℕ → Bytes → Result ℕ × Bytes
pump [] announced total sunk = (ok total, sunk)
pump (interrupted ∷ content) announced total sunk = pump content announced total sunk
pump (failed ∷ content) announced total sunk =
    (err (invalid_request (bytes_of "the content could not be read to its end")), sunk)
pump (piece bytes ∷ content) announced total sunk =
    let rest = pump content announced (total + length bytes) (sunk ++ bytes) in
    if length bytes == 0
    then (ok total, sunk)
    else (if ltb announced (total + length bytes) then (err content_mismatch, sunk) else rest)
