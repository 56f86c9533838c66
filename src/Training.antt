-- ===== src/Training.antt =====
-- driftsql/training: the order and the coverage of the training rows.
pub mod Coverage
