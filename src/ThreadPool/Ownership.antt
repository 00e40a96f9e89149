-- ===== src/ThreadPool/Ownership.antt =====
-- Who holds which index while no claim has been refused, and that every step keeps it so.
mod Defs
mod Claim
mod Put
mod Take
pub use Defs.*
pub use Claim.{claim-Inv}
pub use Put.{put-Inv}
pub use Take.{fetch-Inv, get-Inv}
