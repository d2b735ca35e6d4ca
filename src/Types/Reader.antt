-- ===== src/Types/Reader.antt =====
-- Decoding from an `io.Reader` (internal/types): a reader takes bytes from the front of what is
-- left, and `io.ReadFull` fails where too few are left. The messages around an error are left out.
mod Monad
mod Laws
mod Codecs
unfoldable pub use Monad.*
unfoldable pub use Laws.*
unfoldable pub use Codecs.*
