-- ===== src/Settings.antt =====
-- backend/app/services/settings_store.py: the settings that an administrator changes while the program
-- runs (Store), and what a write of them does (Merge).
pub mod Store
pub mod Merge
