-- ===== src/CString/Words.antt =====
-- The token loop of `getTokens` against the words of the text, described without a buffer.
mod Pieces
mod Cut
mod Loop
mod Spaced
pub use Loop.{token_loop-words, token_loop-inside, length-token_loop}
pub use Pieces.{length-words}
pub use Spaced.{words-word, words-spaced}
