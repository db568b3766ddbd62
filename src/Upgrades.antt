-- ===== src/Upgrades.antt =====
-- Updates of the panel: the manifest and the commands (backend/internal/api/updates.go) and the
-- upgrade task (backend/internal/api/upgrade_tasks.go).
pub mod Compare
pub mod Shell
pub mod Words
pub mod Manifest
pub mod Task
pub mod Script
pub mod Handlers
pub mod Checked
pub mod Started
pub mod Freed
pub mod Restart
