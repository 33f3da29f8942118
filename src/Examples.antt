-- ===== src/Examples.antt =====
-- The theorems at concrete inputs, a module for each part of the program.
mod Operations
mod Files
mod Audit
mod Client
mod Cipher
mod Parsing
mod Accounts
mod Codec
mod Security
mod Search
mod Chat
mod Limits
mod Llm
mod Chunks
mod Records
mod Queue
