-- ===== src/Controllers.antt =====
-- driftsql/controllers: the controllers that act without the model.
pub mod Submit
