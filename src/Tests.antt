-- ===== src/Tests.antt =====
-- Runs of the theorems on one small directory (child Samples).
pub mod Samples
mod Messaging
mod Directories
mod SignIn
mod Reporting
mod Importing
mod Jobs
mod Program
mod Tokens
mod Configuration
