-- ===== src/Storage.antt =====
-- src/storage: the stores of labels.
pub mod Label
