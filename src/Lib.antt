-- ===== src/Lib.antt =====
-- The codec broker of LinDeX, and the H.264 bitstream, the end-of-stream control and some policies of its
-- VA-API driver.
--
-- A Linux client speaks to the broker over a socket. A message has a header of 32 bytes, a payload
-- and descriptors. The session engine takes one request at a time, keeps a table of codec sessions,
-- calls the codec backend, and writes a reply. Buffers that clients share are dma-bufs, which a
-- session registers, submits and takes back; Android hardware buffers follow a reply in a handshake
-- of their own. In the VA-API driver, two small machines carry the end of a stream through a decoder
-- and an encoder.
--
-- Which file models which part:
--   Base         Boolean tests on numbers, lists with native length, results with errno, and arrays
--                of slots (`find_first`, `update_first`: a search and a write through its pointer).
--   Kernel       fcntl, ioctl and close on descriptors, as a parameter: a record of functions on a
--                world. `none` is the descriptor -1. Kernel/Table is one with its laws.
--   Protocol     src/video_bridge/src/protocol.c and include/advc/protocol.h. Protocol/Limits has the
--                constants, Protocol/Wire the little-endian accessors `advc_put_u16` to `advc_get_u64`
--                on buffers (functions from offsets to bytes), Protocol/Header `advc_header_validate`,
--                `advc_header_encode` and `advc_header_decode`, Protocol/RoundTrip their theorems.
--                Protocol/Messages is `advc_send_message`, `advc_receive_message` and
--                `advc_close_message_fds`, with sendmsg and recvmsg as parameters, and
--                Messages/Delivery its theorems.
--   Broker       src/video_bridge/src/broker.c: `advc_broker_handle_once` with the functions of
--                struct advc_broker_provider as parameters. Broker/Features is about HELLO,
--                Broker/Replies about the headers of replies, Broker/Closing about descriptors.
--                Broker/Engine has the session engine as provider, and the loop over requests of
--                `serve_client` of src/video_bridge/android/broker_main.c; Broker/Loop is about that
--                loop.
--   H264         src/vaapi_advc/advc_h264_annexb.c. H264/Bits has `put_bit` to `finish_rbsp` and
--                `read_bit` to `read_se`; its children relate the bytes of a writer to the sequence
--                of its bits (Packed), write and read fields (Fields) and exponential Golomb codes
--                (Golomb). H264/Syntax is a row of such calls, with its round trip. H264/Nal has
--                `append_annexb_nal`, `init_slice_reader` and `advc_h264_parse_slice_identity`, and
--                Nal/Escape their emulation prevention; H264/Config `validate_parameters` and
--                `advc_h264_build_codec_config`, whose children are about one parameter set (Rbsp)
--                and both (Decoded); H264/AccessUnit `advc_h264_build_access_unit` and
--                `advc_h264_prepend_codec_config`; H264/Override
--                `advc_h264_parse_reference_override`.
--   Dmabuf       src/video_bridge/src/dmabuf_ingress.c. Dmabuf/Descriptor is
--                `advc_dmabuf_descriptor_validate`, Dmabuf/Valid what it ensures, Dmabuf/Records
--                `advc_dmabuf_registration_encode` and `_decode`, Dmabuf/Requests the smaller
--                messages and `advc_dmabuf_sync_file_validate`, Dmabuf/Registry the registry
--                (`advc_dmabuf_registry_create`, `_register`, `_unregister`, `_begin`, `_finish`,
--                `_destroy`). Its children count entries (Counts), state the abstract map from ids to
--                flights (Refine), relate the operations to it (Flights), and follow the descriptors
--                of a failed registration (Leaks). Dmabuf/Sample is test data.
--   Session      src/video_bridge/src/session_engine.c. Session/World is struct advc_backend_ops and
--                the system calls on memory files, as parameters; Session/State the slots and the
--                engine; Session/Handled the two ways in which a handler returns. Session/Create is
--                `handle_create`, Session/Input `load_input` and `handle_queue`, Session/Ahb
--                `handle_queue_ahb` and `handle_complete_ahb` with the receiving half of
--                `advc_session_engine_after_reply`, Session/Ingress the four dma-buf handlers,
--                Session/Output `handle_dequeue`, `handle_release`, `handle_transfer_ahb`,
--                `handle_transfer_prime` and `release_outstanding`, Session/Engine `handle_flush`,
--                `handle_close`, `advc_session_engine_handle`, `_after_reply` and `_destroy`.
--                Session/Ids, Valid, Identity, Unique, Others, Steps, Cycle, Handshake, Pairing and
--                Flights hold the theorems; Steps and Cycle follow the handshake through the handlers
--                and the engine, and Unique has the step relation of the engine.
--   Eos          Eos/Decode is src/vaapi_advc/advc_vaapi_decode_eos.c (`_state_init`,
--                `_state_signal`, `_state_progress`), with Phases, Accounts and Ledger for its theorems; Ledger
--                counts the callbacks over a sequence of calls.
--                Eos/Encode is src/vaapi_advc/advc_vaapi_encode_eos.c, with Once and Returns.
--   Policy       Pure choices. Policy/Transport is src/video_bridge/src/transport_policy.c,
--                Policy/Slices src/vaapi_advc/advc_vaapi_slice_layout.c, Policy/Surface
--                src/vaapi_advc/advc_vaapi_surface_policy.c, Policy/Modifier
--                src/vaapi_advc/advc_vaapi_modifier_policy.c, with Modifier/Parsing about its parser.
--
-- Conventions. Numbers are natural; where an unsigned field of the C code can wrap, `% 2 ^ w` is
-- written out, and a field that is read from bytes is a sum of them. A slot that the C code finds and
-- writes through a pointer is found by `find_first` and written by `update_first` with the same test.
-- A handler takes the session and returns it with the status, the reply and the world; the dispatcher
-- writes it back. Pointers that callers never pass as NULL are not tested again.
--
-- Fuel. `allocate_session_id` tries at most six ids: zero and the ids of four sessions are passed
-- over, so six tries are enough. `encode_eos_finish` takes a number of rounds; a round of draining
-- takes a frame that the encoder owes or time, so these and the timeout bound them. `bit_length`
-- counts to 34, since a code of 32 bits plus one has at most 33; `read_zeroes` counts the zeroes
-- that `read_ue` admits. `serve_requests` takes a list, with an entry for each request that says
-- whether its buffers are allocated, and its theorem holds for every list.
--
-- Not modelled: the calls on sockets themselves, the client library, JSON and discovery of codecs,
-- the mapping of hardware buffers, the VA-API driver apart from the parts above, the Vulkan and DRM
-- layers, the launchers, the Android services, and the tools. They are system calls and glue around
-- the parts above, or are left for later.
pub mod Base
pub mod Kernel
pub mod Protocol
pub mod Dmabuf
pub mod Session
pub mod Eos
pub mod Policy
pub mod H264
pub mod Broker
