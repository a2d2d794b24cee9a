-- ===== src/Kakao.antt =====
-- src/auth/infrastructure/kakao-*.ts: the client of Kakao's API and the settings of its policies.
-- `Client` has the client, `Failures` what a login answers when a call fails, `Config` and
-- `Settings` the check of the settings.
pub mod Client
pub mod Failures
pub mod Config
pub mod Settings
mod Tests
