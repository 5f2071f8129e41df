-- ===== src/Clib.antt =====
-- What src/sd uses of the C library: byte strings, decimal numbers and the clock.
pub mod Str
pub mod Decimal
pub mod Ftime
