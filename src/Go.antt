-- ===== src/Go.antt =====
-- What the code uses of Go's standard library, written out: `strings`, `fmt`, `errors`,
-- `encoding/base64` and `net`. A Go string is a native text; the bytes of a text are its UTF-8.
pub mod Strings
pub mod Errors
pub mod Base64
pub mod Net
pub mod TextLaws
pub mod TrimLaws
