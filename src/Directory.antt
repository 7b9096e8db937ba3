-- ===== src/Directory.antt =====
-- The recipient directory (domain/recipients.py, domain/administrators.py): users, teams, recipient
-- lists and consents, each operation with its audit entry.
pub mod Audit
pub mod Users
pub mod Teams
pub mod RecipientLists
pub mod Consents
