-- ===== src/H264.antt =====
-- src/vaapi_advc/advc_h264_annexb.c: parameter sets and slices of H.264 in Annex B form.
pub mod Bits
pub mod Syntax
pub mod Nal
pub mod Config
pub mod AccessUnit
pub mod Override
mod Examples
