-- ===== src/Store.antt =====
-- frontend/src/features/builder/store/builder-store.ts: the canvas of the open build, its undo history
-- and how it is saved. The state is in `State`, what a save sends in `Payload`, the edits in `Edits`.
pub mod State
pub mod History
pub mod Devices
pub mod Parts
pub mod Links
pub mod Cables
pub mod Project
pub mod Payload
pub mod Loading
pub mod Validation
pub mod Signature
pub mod Saving
pub mod Remote
pub mod Preview
pub mod Edits
pub mod Canvas
pub mod Sound
pub mod Samples
mod Tests
