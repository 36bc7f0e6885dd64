-- ===== src/Dmabuf.antt =====
-- The dma-buf ingress contract: src/video_bridge/src/dmabuf_ingress.c and its header.
-- Descriptor holds the data and its validation, Valid what validation ensures, Records the wire
-- codec of registrations, Requests the smaller messages, Registry the table of registered buffers.
pub mod Descriptor
pub mod Valid
pub mod Records
pub mod Requests
pub mod Registry
pub mod Sample
