-- ===== src/Scoring.antt =====
-- frontend/services/scoring.js, pure scoring: raw scores, the commitment adjustment, ranking and
-- display names. Each child holds the definitions of one part; its own children prove its laws.
pub mod Raw
pub mod Commitment
pub mod Ranking
pub mod Weights
pub mod Names
