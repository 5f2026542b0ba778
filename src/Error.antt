-- ===== src/Error.antt =====
-- siffleux/src/common/error.rs: the errors of the program, and what a fallible call returns.
mod Transport
mod Fallible
pub mod Convert
pub mod Rejections
pub use Transport.*
pub use Fallible.{Result, ok, err, panic, unwrap, ◌>>=◌, bind-ok, is_panic}
