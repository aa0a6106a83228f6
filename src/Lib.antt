-- ===== src/Lib.antt =====
-- The Vassago SDK: the client of the Vassago daemon (client/, cauth/), the adapters of the
-- messaging platforms (messaging/) and the formatting of messages (messaging/format/).
--
-- The parts and how they interact. An application holds a gRPC client of the daemon, directly or
-- through the reconnecting client, which repeats a call once after a connection error. An agent
-- session registers with the daemon, sends heartbeats and forwards the daemon's events. The
-- adapters turn the messages of a platform into events, and send messages to it; they share the
-- limits, the truncation and the splitting of the format package.
--
-- Files and what they model:
-- - Prelude and below: Go strings as lists of bytes (text_eq, index, last_index, has_prefix for
--   package strings), errors, signed integers, decimal printing and reading, and effects. A call of
--   the outside world is an event in a log, the newest first; its reply is any function of the log up
--   to the call, so the theorems hold for every behaviour of the other side, also one that
--   changes.
-- - Format: messaging/format/format.go. split_loop is the loop of splitMessage on fuel, one round
--   for each byte and one more; every round takes at least one byte, so that is enough
--   (Format/Split). Format/Platforms and Format/Oversize hold the properties for all platforms.
-- - Messaging/Smtp: newSMTPSender and SendSMTP of messaging/email_adapter.go, with net/smtp as the
--   log of its calls. The loop over the body recurs on the well-founded order of lengths.
-- - Messaging/Email: the adapter of messaging/email_adapter.go (Connect, Close, Send,
--   isValidEmail), and in Incoming pollOnce, pollEmails and Listen, with Poll and Delivery for
--   what they hand on, Wanted for which messages that are, and Uids for the largest UID. The fetcher is the source's interface as functions, and the sender
--   replies by the log of the mails that it was handed. The
--   choice of each select is a Boolean function of what was handed on before; an index out of
--   range is none.
-- - Client: Connect of client/client.go and cauth/bearer.go; Client/Calls: the calls that the
--   reconnecting client repeats, each with its label before the error. The other methods of
--   client/client.go are in Client/Agents, Sessions, Todos, Cron, Skills, Tools and Tasks, by what
--   they are about; Client/Wire holds their requests and replies, and Client/Exchange one call.
-- - Client/Mnemo: the interface of client/vassago_client.go, as a record of methods, and in
--   Client/Mnemo/Calls as a data type of calls; Client/Mnemo/Connected is the client of
--   client/client.go as such a record, and Client/Mnemo/Null the one of client/null_client.go.
--   Failing is about every method of the first.
-- - Client/Resilient: client/reconnect.go. connect_loop is the loop of connect on fuel: with
--   MaxRetries at n + 1, fuel above n + 2 is enough (Attempts); with MaxRetries 0 the source's
--   loop has no bound, and fuel above k + 1 is enough where the daemon can be reached once k waits
--   are over (Unlimited). A result of none says that the fuel ran out.
--   Client/Resilient/Interleaved has its methods in several goroutines: a step is what one of them
--   does between two locks, and a whole Connect is one step, as nothing else of the client depends
--   on how far it is. Which call's error leads to reconnect is left out: a goroutine may
--   begin one at any time while the client is open. Float arithmetic (Floats) and gRPC's reading
--   of a status (StatusReader, with its documented behaviour on wrapped errors) are parameters.
-- - Client/Agent: client/agent.go. The parts of its methods between locks, and the end of a
--   heartbeat goroutine, are operations; Step lets them interleave. Client/Agent/Events is the
--   goroutine that forwards events, with the reader of its channel. Client/Agent/Offline is a session
--   over the null client.
-- - Messaging/Chunks: the loop of sendSplitMessage, the same in messaging/imessage_adapter.go,
--   messaging/discord_adapter.go and messaging/telegram_adapter.go but for the type of the target
--   and the words of its error, which are parameters. The service that takes the messages replies
--   by the log of all posts.
-- - Messaging/Polling: the cases of the select of a polling loop, as explicit sequences, for the
--   adapters of email and iMessage.
-- - Messaging/Imessage: messaging/imessage_adapter.go. The rows that SQL returns are a parameter
--   (Db); their conversion, polling and the loop of Listen (Incoming, with Poll, Order and
--   Delivery for what they hand on), the text of the script (Script) and its run (Osascript),
--   Connect and Close (Database) and Send (Sending) are modelled.
-- - Messaging/Discord: messaging/discord_adapter.go, with a discordgo session as a record of
--   replies: Connect and Close (Lifecycle), Send (Sending), messageCreate (Incoming).
-- - Messaging/Telegram: messaging/telegram_adapter.go, with the bot as any type: Connect and Close
--   (Closing), processUpdates over the updates that come (Incoming) and its tests (Filter), and
--   Send (Sending). Prelude/Scan is fmt.Sscanf with "%d", which reads the target of Send.
-- - Client/Chat: client/chat_client.go; a stream is its events and the error that ends it.
--   Client/Chat/Channel is the channel of ChatStream, with its goroutine and its reader.
-- - Client/HotBlock: client/hotblock_cache.go, with the clock as an argument.
--
-- Not modelled: the generated protocol code (proto/), but for the fields that the client uses;
-- NewClientFromConn, and Ping and Close of the chat client, which are one call each; the Listen of
-- the Discord adapter, which returns the channel of its handler; logging. The parser of addresses
-- behind ValidateEmailTarget is a parameter. The attempt counter and the counters of a session are
-- unbounded numbers. Texts of other languages are bytes, as in Go; only the limits that the source
-- checks bound lengths.
pub mod Client
pub mod Format
pub mod Messaging
pub mod Prelude
