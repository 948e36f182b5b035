-- ===== src/Float.antt =====
-- Python's `float`, which the language implements and not this repository: the type and its
-- operations are parameters of the model. `lit n d` is the literal whose decimal value is n / d.
-- Comparisons are separate operations, so that a value that is not a number can answer no to all of
-- them. `trunc` is `int(x)`, converted back.
pub mod Laws
pub mod Fixed
mod Defs
unfoldable pub use Defs.*
