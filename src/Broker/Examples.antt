-- ===== src/Broker/Examples.antt =====
-- One request with a descriptor, sent over a socket and served by a broker that has no codec engine.
use lin_de_x.Base.{
  ℕ, ◌+◌, ltb, List, [], ◌∷◌, ◌≡◌, true, false, refl, arith, ok, os, none, some, replicate, min,
  if◌then◌else◌, emsgsize,
}
use lin_de_x.Base.Masks.{bit}
use lin_de_x.Kernel.{returns, fails}
use lin_de_x.Kernel.Table.{table, table-Laws}
use lin_de_x.Dmabuf.Registry.Leaks.{member}
use lin_de_x.Dmabuf.Registry.{close_all}
use lin_de_x.Protocol.Limits.{header_size, max_payload}
use lin_de_x.Protocol.Wire.{zeroes, put_u16, put_u32, get_u16, get_u32, get_u64, join_u16, join_u32}
use lin_de_x.Protocol.Header.{
  Header, header_validate, header_encode, header_decode, get_header, put_header,
}
use lin_de_x.Session.State.{Message, write_status}
use lin_de_x.Protocol.Messages.{
  Datagram, Received, Socket, datagram, first_fds, overlay, send_message, sent_whole,
  receive_message, received_datagram, accept_message, collect_rights, is_whole, close_fds,
  close_message_fds,
}
use lin_de_x.Protocol.Messages.Delivery.{arrived, receive_message-sent, receive_message-refused}
use lin_de_x.Broker.{
  Provider, fresh_request, handle_once, serve, answer_request, send_reply, finish_reply, init_reply,
  handle_hello,
}
use lin_de_x.Broker.Features.{known_since, handle_hello-Features}
use lin_de_x.Broker.Replies.{KeepsIdentity}
use lin_de_x.Broker.Closing.{stands_among, handle_once-closes}

abbrev ping : Header
ping = record {
  major = 1;
  minor = 4;
  message_type = 1;
  opcode = 10;
  request_id = 0x01020304;
  session_id = 7;
  flags = 0;
  payload_size = 0;
  fd_count = 1;
  reserved = 0;
}

abbrev ping_request : Message
ping_request = record fresh_request { header = ping; fds = some 5 ∷ replicate 7 none }

abbrev pub ping_datagram : Datagram
ping_datagram = record {
  header = put_header zeroes ping;
  payload = zeroes;
  payload_size = 0;
  rights = some 5 ∷ [];
}

-- Everything is sent, and the datagram that is got has installed the descriptor 5.
abbrev socket : Socket (List ℕ)
socket = record {
  sendmsg = λ w fd d. returns (header_size + d.payload_size) w;
  recvmsg = λ w fd capacity. returns (arrived ping_datagram (5 ∷ [])) (5 ∷ w);
}

ping-encoded : header_encode ping ≡ ok (put_header zeroes ping)
unfolding header_encode header_validate
ping-encoded = refl

ping-sent : send_message table socket (9 ∷ []) (os 0) 3 ping_request ≡ returns tt (9 ∷ [])
unfolding send_message sent_whole header_encode header_validate datagram
ping-sent = refl

ping-received :
    receive_message table socket (9 ∷ []) 3 fresh_request ≡ returns ping_request (5 ∷ 9 ∷ [])
unfolding receive_message received_datagram accept_message collect_rights is_whole overlay
    header_decode header_validate get_header put_header put_u16 put_u32 get_u16 get_u32 join_u16
    join_u32
ping-received = refl

ping-arrived :
    socket.recvmsg [] 4 max_payload
    ≡ returns (arrived (datagram (put_header zeroes ping) ping_request) (5 ∷ [])) (5 ∷ [])
unfolding datagram first_fds
ping-arrived = refl

receive_message-sent_example :
    (socket.sendmsg (9 ∷ []) 3 (datagram (put_header zeroes ping) ping_request)
      ≡ returns (header_size + 0) (9 ∷ []))
    × (receive_message table socket [] 4 fresh_request
        ≡ returns
            (record fresh_request {
              header = ping;
              payload = zeroes;
              fds = overlay (5 ∷ []) (replicate 8 none);
            })
            (5 ∷ []))
receive_message-sent_example =
    receive_message-sent table socket (9 ∷ []) (9 ∷ []) [] (5 ∷ []) (os 0) 3 4 ping_request
      fresh_request (5 ∷ []) (put_header zeroes ping) (omega arith) (omega arith) ping-encoded
      ping-sent (omega arith) refl refl ping-arrived

-- The same datagram, of which a part was cut off.
abbrev cut_off : Received
cut_off = record (arrived ping_datagram (5 ∷ [])) { truncated = true }

abbrev bad_socket : Socket (List ℕ)
bad_socket = record socket { recvmsg = λ w fd capacity. returns cut_off (5 ∷ w) }

cut_off-refused :
    receive_message table bad_socket (9 ∷ []) 3 fresh_request ≡ fails emsgsize (9 ∷ [])
unfolding receive_message received_datagram accept_message collect_rights close_all
cut_off-refused = refl

receive_message-refused_example :
    member 5 (9 ∷ []) ≡ (if member 5 (5 ∷ []) then false else member 5 (5 ∷ 9 ∷ []))
receive_message-refused_example =
    receive_message-refused table bad_socket (λ w fd. member fd w) table-Laws (9 ∷ []) (5 ∷ 9 ∷ [])
      (9 ∷ []) 3 fresh_request cut_off emsgsize (5 ∷ []) refl refl (omega arith) refl
      cut_off-refused 5

abbrev no_engine : Provider (List ℕ)
no_engine = record {
  feature_bits = 0x3fff;
  query_capabilities = none;
  handle_codec_request = none;
  after_reply = none;
}

-- The engine answers everything with success.
abbrev engine : Provider (List ℕ)
engine = record no_engine {
  handle_codec_request = some (λ w request reply. (0, write_status reply 0 0, w));
}

engine-KeepsIdentity : KeepsIdentity engine.handle_codec_request
unfolding KeepsIdentity write_status
engine-KeepsIdentity = λ w request reply e. record {
  major = e.major;
  minor = e.minor;
  message_type = e.message_type;
  opcode = e.opcode;
  request_id = e.request_id;
  session_id = e.session_id;
}

abbrev pub flush_request : Message
flush_request = record ping_request { header = record ping { opcode = 7 } }

ping-served : handle_once no_engine table socket true (9 ∷ []) (os 0) 3 ≡ (true, 9 ∷ [])
unfolding handle_once datagram serve answer_request send_reply finish_reply init_reply write_status
    send_message sent_whole close_message_fds close_fds header_encode receive_message
    received_datagram accept_message collect_rights is_whole overlay header_decode header_validate
    get_header put_header put_u16 put_u32 get_u16 get_u32 join_u16 join_u32
ping-served = refl

ping-stands : stands_among 5 (first_fds 1 ping_request.fds) ≡ true
unfolding stands_among first_fds
ping-stands = refl

handle_once-closes_example : member 5 (9 ∷ []) ≡ false
handle_once-closes_example =
    handle_once-closes table socket (λ w fd. member fd w) table-Laws no_engine (9 ∷ []) (5 ∷ 9 ∷ [])
      (9 ∷ []) (os 0) 3 ping_request true 5 ping-received ping-served ping-stands

-- A client of version 1.4 that asks for everything is not offered the feature of bit 10.
abbrev hello_request : Message
hello_request = record fresh_request {
  header = record ping { opcode = 1; payload_size = 16; fd_count = 0 };
  payload = λ i. 255;
}

handle_hello-Features_example :
    bit 10 (get_u64 (handle_hello 0x3fff hello_request fresh_request).payload 0) ≡ (
      if ltb 4 (known_since 10)
      then 0
      else min (bit 10 0x3fff) (bit 10 (get_u64 hello_request.payload 0)))
handle_hello-Features_example =
    handle_hello-Features 0x3fff hello_request fresh_request 10 (omega arith) (omega arith) refl
