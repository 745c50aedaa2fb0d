-- ===== src/Python.antt =====
-- What the package uses of Python: bytes, integers, texts, and two modules of its library.
pub mod Bytes
pub mod Ints
pub mod Text
pub mod Base64
pub mod Json
pub mod Utf8
pub mod Hex
