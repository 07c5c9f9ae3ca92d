-- ===== src/Messages.antt =====
-- tcp/messages: the messages between a client and the server, a module for each class.
pub mod Header
pub mod SetChannelUri
pub mod SetPushAccounts
pub mod RequestTestPush
pub mod Response
pub mod SuccessSetPushAccounts
pub mod Push
pub mod Parser
