-- ===== src/Str.antt =====
-- src/str_util.h and src/str_util.c: characters, codecs, slices, string buffers, addresses.
pub mod Chars
pub mod Codec
pub mod Ip4
pub mod Ip6
pub mod Slice
