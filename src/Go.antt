-- ===== src/Go.antt =====
-- What the program uses of Go's language and standard library.
pub mod Text
pub mod Map
pub mod Sort
pub mod Regexp
pub mod Utf8
pub mod Net
pub mod Time
pub mod Strconv
