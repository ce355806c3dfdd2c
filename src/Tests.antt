-- ===== src/Tests.antt =====
-- Concrete runs: the properties at inputs that exercise the code.
mod Fixtures
mod Store
mod Stream
mod Policies
mod Messages
mod Turn
mod Mcp
mod Webhook
mod Skills
mod Memory
mod Codec
mod Vault
mod Dialect
