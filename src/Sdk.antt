-- ===== src/Sdk.antt =====
-- packages/words-sdk/src/image: the run-length encoding of images and the drawing of SVG.
pub mod Hex
pub mod Types
pub mod Palette
pub mod Image
pub mod Svg
pub mod Encoder
mod Examples
