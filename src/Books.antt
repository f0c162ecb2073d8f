-- ===== src/Books.antt =====
-- The books of a workspace: `used` in its record against the bytes that its shelf holds.
pub mod Changes
pub mod Items
pub mod Uploads
pub mod Commits
pub mod Sweeps
pub mod Rewrites
pub mod Run
use passalong_server.Base.{ℕ, ◌≤◌, ◌≡◌, All}
use passalong_server.Error.{Result, ok, err, spins}
use passalong_server.Record.{WorkspaceRecord}
use passalong_server.Rules.{Rules}
use passalong_server.Shelf.{ItemShelf}
use passalong_server.Shelf.Laws.{ShelfLaws, SameBytes}
use passalong_server.Views.{booked, live_generations}

module _ {sh : ItemShelf} (laws : ShelfLaws sh) where
  -- What is booked for a generation is what the shelf holds in it.
  abbrev pub IsBooked : WorkspaceRecord → sh.State → ℕ → Type 0
  IsBooked rec s g = booked rec g ≡ laws.count g s

  -- The books are right for every live generation, and nothing is in those not yet given out.
  pub record Balanced (rec : WorkspaceRecord) (s : sh.State) : Type 0 where
    pub live : All (IsBooked rec s) (live_generations rec)
    pub fresh : (g : ℕ) → rec.next_generation ≤ g → (laws.count g s ≡ 0) × (booked rec g ≡ 0)

  -- A rule may answer with balanced books, or refuse with the shelf's bytes as they were.
  abbrev pub Settles : {A : Type 0} → sh.State → Result A × Rules sh.State → Type 0
  Settles s (ok a, r) = Balanced r.rec r.shelf
  Settles s (err e, r) = SameBytes laws.count s r.shelf
  Settles s (spins, r) = SameBytes laws.count s r.shelf

  -- So far the rule has touched neither.
  abbrev pub Level : sh.State → Rules sh.State → Type 0
  Level s r = Balanced r.rec r.shelf × SameBytes laws.count s r.shelf
