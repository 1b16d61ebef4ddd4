-- ===== src/Domain.antt =====
-- autotrader/domain.py: the neutral types that every part of the program shares.
mod Orders
mod Account
unfoldable pub use Orders.*
unfoldable pub use Account.*
