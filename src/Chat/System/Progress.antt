-- ===== src/Chat/System/Progress.antt =====
-- What is on its way in the chat can be read.
use learnuv.Chat.Server.{Server}
use learnuv.Chat.Client.{Client}
use learnuv.Chat.System.{System}
