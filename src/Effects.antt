-- ===== src/Effects.antt =====
-- Python methods that change an object, call out and may raise: a state monad with exceptions. What
-- was written before a raise stays written, so the state comes back beside the exception too.
mod Exceptions
pub mod Results
mod Actions
pub mod Rules
pub mod Fuel
pub mod Parts
unfoldable pub use Exceptions.*
pub use Results.{Result, ok, raise}
unfoldable pub use Results.{float_pow_two}
unfoldable pub use Actions.*
