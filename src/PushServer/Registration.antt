-- ===== src/PushServer/Registration.antt =====
-- server/PushServer.cpp: a message set_push_accounts, from its text to the answer.
use uwpx_push_server.Common.{List}
use uwpx_push_server.Messages.Parser
use uwpx_push_server.PushServer.{PushServer}
use uwpx_push_server.PushServer.Accounts as Accounts
use uwpx_push_server.PushServer.Accounts.Stored.{Stored}
