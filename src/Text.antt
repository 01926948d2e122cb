-- ===== src/Text.antt =====
-- What the SDK uses of Python's `str` and `bytes`: the UTF-8 codec, `index`, `split` and slices behind a
-- separator. A text is the list of its code points.
pub mod Utf8
pub mod Search
