-- ===== src/Ui.antt =====
-- internal/ui: the handlers of the admin UI.
pub mod Login
