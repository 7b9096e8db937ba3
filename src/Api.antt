-- ===== src/Api.antt =====
-- The HTTP routes (api/): what a request does to the transaction, and its reply. FastAPI, the request
-- models and the texts of the messages are left out; a reply keeps the status and the code.
pub mod Replies
pub mod Users
pub mod Teams
pub mod RecipientLists
pub mod Auth
pub mod Notifications
pub mod Webhooks
pub mod Settings
pub mod Dashboard
