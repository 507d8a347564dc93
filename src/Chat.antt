-- ===== src/Chat.antt =====
-- The chat integrations (pkg/slack and pkg/mattermost): slash commands, buttons and dialogs, which
-- read and change the tables of the default tenant.
pub mod Queries
pub mod Commands
pub mod Attachments
pub mod Interactions
pub mod Words
pub mod Verify
pub mod Blocks
pub mod Slack
pub mod SlackActions
pub mod Refused
pub mod Settled
pub mod Buttons
pub mod Reopened
