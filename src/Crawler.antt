-- ===== src/Crawler.antt =====
-- internal/crawler: canonical URLs, the outcome of a fetched page, and what a worker does with it.
pub mod Classify
pub mod Config
pub mod Environment
pub mod Settings
pub mod Canonical
pub mod Pages
pub mod Moments
pub mod Worker
pub mod Loop
pub mod Crowd
pub mod TestMode
pub mod Startup
mod Tests
mod Reading
