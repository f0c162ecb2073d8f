-- ===== src/Record/Generations.antt =====
-- The generations that a record points to: all below the next one to be given out, and no two the
-- same. The maps of a record are in the order of their keys.
use passalong_server.Base.{ℕ, ◌<◌, ◌≢◌, Option, none, some, arith}
use passalong_server.Map.Order.{nat_ord, text_ord}
use passalong_server.Map.Sorted.{IsSorted}
use passalong_server.Record.{EncryptionStatus, settled, rewriting, WorkspaceRecord, new_record}

abbrev pub PlainFits : Option ℕ → ℕ → ℕ → Type 0
PlainFits none generation next = Unit {0}
PlainFits (some p) generation next = (p < next) × (p ≢ generation)

abbrev pub Apart : Option ℕ → ℕ → Type 0
Apart none staged = Unit {0}
Apart (some p) staged = staged ≢ p

abbrev pub StagedFits : EncryptionStatus → Option ℕ → ℕ → ℕ → Type 0
StagedFits (settled seal) plain generation next = Unit {0}
StagedFits (rewriting session) plain generation next =
    (session.staged_generation < next)
    × (session.staged_generation ≢ generation)
    × Apart plain session.staged_generation

pub record IsWellFormed (rec : WorkspaceRecord) : Type 0 where
  pub below : rec.generation < rec.next_generation
  pub plain : PlainFits rec.plain rec.generation rec.next_generation
  pub staged : StagedFits rec.state rec.plain rec.generation rec.next_generation
  pub tickets : IsSorted rec.tickets
  pub tombstones : IsSorted rec.tombstones
  pub used : IsSorted rec.used

pub new_record-IsWellFormed : IsWellFormed new_record
new_record-IsWellFormed = ground arith
