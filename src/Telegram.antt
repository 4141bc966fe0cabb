-- ===== src/Telegram.antt =====
-- src/telegram: Bot API file ids, the range of a media request, and the download of a range.
pub mod FileId
pub mod Range
pub mod Download
