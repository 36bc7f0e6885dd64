-- ===== src/Eos.antt =====
-- The end-of-stream contracts of the VA-API driver: src/vaapi_advc/advc_vaapi_decode_eos.c and
-- src/vaapi_advc/advc_vaapi_encode_eos.c. What the callbacks do is a parameter.
pub mod Decode
pub mod Encode
