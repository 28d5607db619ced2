-- ===== src/Tests.antt =====
-- The theorems at concrete inputs, and the code on some.
mod Text
mod Buffers
mod Store
mod Sockets
mod Commands
mod Tables
mod Rings
mod Files
mod Names
mod Resolving
