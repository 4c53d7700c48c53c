-- ===== src/ShardCfg/Membership.antt =====
-- Join, Leave and their balanced forms.
pub mod Leave
pub mod Join
