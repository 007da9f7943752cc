-- ===== src/Py.antt =====
-- The parts of Python's language and standard library that the scripts use: texts, the numbers that
-- `int` reads and `str` prints, paths, and floats as an interface.
pub mod Text
pub mod Decimal
pub mod Floats
pub mod Format
