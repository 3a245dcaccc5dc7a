-- ===== src/Window.antt =====
-- app/src/hooks/useMessageWindow.ts: the sliding window over the newest-first message list. The
-- hook's state is the pair of indices and the id of the top message at the last render; each effect
-- and callback is a function on it. The indices are native numbers: with a page no larger than the
-- cap no subtraction of the source is negative. Scroll positions and observers are the browser's.
pub mod Defs
pub mod Bounds
pub mod Anchor
