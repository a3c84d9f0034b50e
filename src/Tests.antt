-- ===== src/Tests.antt =====
-- The theorems at concrete inputs.
mod Settings
mod Version
mod Extract
mod Formats
mod Access
mod Office
mod Pdf
mod Files
mod Migrate
mod Paths
mod Contents
mod Crawl
mod Search
mod Watch
mod Content
mod Volumes
mod Sessions
