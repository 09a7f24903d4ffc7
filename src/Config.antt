-- ===== src/Config.antt =====
-- daemon/src/agent_waked/config.py: how a configuration file is checked and brought into one form.
pub mod Checked
pub mod Blocks
pub mod Senders
pub mod Channels
pub mod Tables
pub mod Load
pub mod Each
pub mod References
pub mod Parts
pub mod Credentials
pub mod Loaded
pub mod Stray
pub mod Listen
pub mod Webhooks
