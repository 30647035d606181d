-- ===== src/Http.antt =====
-- The HTTP layer of the library: src/http and include/carafe/http.
pub mod Ascii
pub mod Request
pub mod Headers
pub mod LineReader
pub mod RequestParser
pub mod FieldList
pub mod Framing
pub mod ReaderState
pub mod RequestReader
pub mod Path
pub mod Response
