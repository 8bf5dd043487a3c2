-- ===== src/StripTags.antt =====
-- php_strip_tags/: a state machine that takes the HTML and PHP tags out of a text.
pub mod Tag
pub mod Machine
pub mod Handler
pub mod Strip
pub mod Within
pub mod Cases
pub mod Safety
pub mod Plain
pub mod Clean
mod Tests
