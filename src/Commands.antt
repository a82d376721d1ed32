-- ===== src/Commands.antt =====
-- srcs/commands and srcs/modes: one handler for each command, and the dispatcher.
pub mod Common
pub mod Pass
pub mod Nick
pub mod User
pub mod Join
pub mod Privmsg
pub mod Topic
pub mod Kick
pub mod Invite
pub mod Modes
pub mod Dispatch
