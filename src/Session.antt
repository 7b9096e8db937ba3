-- ===== src/Session.antt =====
-- The database session that every repository works on, as a state monad with exceptions.
-- `World` holds the tables as the open transaction sees them, the tables of the last commit, the
-- number of calls made to the outside so far, and the messages handed to the WhatsApp provider.
mod Exceptions
mod State
pub use Exceptions.*
unfoldable pub use State.*
