-- ===== src/Python.antt =====
-- What the program uses of Python's standard library, over texts as lists of code points.
pub mod Hmac
pub mod Text
pub mod Base64
pub mod Dictionary
pub mod Utf8
pub mod Ints
