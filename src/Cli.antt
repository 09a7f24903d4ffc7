-- ===== src/Cli.antt =====
-- daemon/src/agent_waked/cli: the operator's commands on the durable store.
pub mod Redrive
