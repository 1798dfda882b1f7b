-- ===== src/Installer.antt =====
-- packages/installer: consent to an installation, and what it installs.
pub mod Consent
pub mod Journal
