-- ===== src/Command.antt =====
-- src/command.c: the handlers of the bot commands. A handler is called with its message and changes
-- the bot's state; the texts are those of the C locale, with what `%s` stands for put in.
pub mod Accounts
pub mod AccountModes
pub mod Channels
pub mod HelpTexts
pub mod Help
pub mod Listing
pub mod Settings
pub mod Speech
pub mod Users
mod Tests
