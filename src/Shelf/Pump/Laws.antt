-- ===== src/Shelf/Pump/Laws.antt =====
-- What `pump` reads of a stream, against what the stream holds up to its end.
use mathlib.Core.List.{append_assoc, append-nil}
use passalong_server.Base.{
  ℕ, ◌+◌, ◌≤◌, ◌<◌, ◌≡◌, refl, inl, inr, Option-cases, List, [], ◌∷◌, ◌++◌, Option, none, some,
  arith, ◌==◌, if◌then◌else◌, length, length-append,
}
use passalong_server.Error.{ok, err, content_mismatch}
use passalong_server.Ids.{Bytes}
use passalong_server.Shelf.{Chunk, piece, interrupted, failed}
use passalong_server.Shelf.Pump.{pump}

abbrev before : Bytes → Option Bytes → Option Bytes
before bytes none = none
before bytes (some rest) = some (bytes ++ rest)

-- The bytes of a stream up to its end, if no reading fails before it.
unfoldable pub received : List Chunk → Option Bytes
received [] = some []
received (interrupted ∷ content) = received content
received (failed ∷ content) = none
received (piece bytes ∷ content) =
    let rest = before bytes (received content) in if length bytes == 0 then some [] else rest

pump-received_from :
    (content : List Chunk) (announced total : ℕ) (sunk bytes : Bytes) (whole : ℕ) (all : Bytes)
    → received content ≡ some bytes
    → whole ≡ total + length bytes
    → all ≡ sunk ++ bytes
    → (whole ≤ announced → pump content announced total sunk ≡ (ok whole, all))
      × (announced < whole
          → total ≤ announced
          → (pump content announced total sunk).0 ≡ err content_mismatch)
unfolding pump received
pump-received_from [] announced total sunk bytes whole all h w a = ground (arith, append-nil sunk)
pump-received_from (interrupted ∷ content) announced total sunk bytes whole all h w a =
    pump-received_from content announced total sunk bytes whole all h w a
pump-received_from (failed ∷ content) announced total sunk bytes whole all h w a = ground arith
pump-received_from (piece b ∷ content) announced total sunk bytes whole all h w a =
    elim (Option-cases (received content)) [
      | inl none_at ↦ ground (arith, none_at, append-nil sunk)
      | inr (rest, at) ↦
          let step =
            pump-received_from content announced (total + length b) (sunk ++ b) rest
              (total + length b + length rest) ((sunk ++ b) ++ rest) at refl refl in
          ground (arith, at, step, append-nil sunk, append_assoc sunk b rest, length-append b rest)
    ]

-- A stream that can be read to its end is read whole if it holds no more than was announced: the answer
-- is its length, and its bytes are what the sink was given. If it holds more, the answer is
-- `content_mismatch`.
pub pump-received :
    (content : List Chunk) (announced : ℕ) (bytes : Bytes)
    → received content ≡ some bytes
    → (length bytes ≤ announced → pump content announced 0 [] ≡ (ok (length bytes), bytes))
      × (announced < length bytes → (pump content announced 0 []).0 ≡ err content_mismatch)
pump-received content announced bytes h =
    let from =
      pump-received_from content announced 0 [] bytes (length bytes) bytes h (omega arith) refl in
    (from.0, λ more. from.1 more (omega arith))
