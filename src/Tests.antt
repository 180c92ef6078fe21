-- ===== src/Tests.antt =====
-- Runs of the definitions on small inputs, and the theorems at such inputs.
mod Samples
mod Tracking
mod Counted
mod Detected
mod Flagged
mod Stored
mod Shared
mod Cropped
mod Piped
mod Streamed
mod Loaded
mod Connected
