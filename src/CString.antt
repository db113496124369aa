-- ===== src/CString.antt =====
-- The string functions of src/helper.c: comparison, search, copies into buffers, tokens.
-- `CString.Libc` has the functions of the C library that the program calls under their own names.
pub mod Libc
pub mod Compare
pub mod Search
pub mod Copy
pub mod Token
