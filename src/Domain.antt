-- ===== src/Domain.antt =====
-- internal/domain: the data of the program. A `float64` is any carrier `F`; a time is nanoseconds
-- since the Unix epoch, and `none` where the code keeps a nil pointer or Go's zero time; a UUID is
-- its number, 0 for `uuid.Nil`; a symbol and an order id are texts.
pub mod Orders
pub mod Indicators
pub mod Scoring
pub mod Positions
pub mod Market
pub use Orders.*
pub use Indicators.*
pub use Scoring.*
pub use Positions.*
pub use Market.*
