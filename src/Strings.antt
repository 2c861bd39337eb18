-- ===== src/Strings.antt =====
-- gears/StringManip.hpp and gears/StringManip.cpp: hexadecimal strings, and the decimal strings of
-- integers. A character is a byte; where the code reads a `char` as a signed number, so does the
-- model.
pub mod Hex
pub mod Numbers
pub mod Concat
mod Examples
