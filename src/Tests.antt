-- ===== src/Tests.antt =====
-- The theorems at concrete inputs.
mod Messages
mod RedisClient
mod Utils
mod PushServer
mod Delivery
mod Expiry
mod Lifecycle
mod Xmpp
mod Threads
mod Start
mod Accounts
mod Interleaving
mod Registry
mod Renewal
mod Available
mod Collision
