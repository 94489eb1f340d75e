-- ===== src/Tests/FileTransfer.antt =====
-- A session of 03_file-transfer that sends a file of three bytes.
use cs594_dcn_f.Prelude.{ℕ, ◌≡◌, true, none, some, List, [], ◌∷◌, ◌++◌, length, drop, arith}
use cs594_dcn_f.Effects.{World, Gives, ◌>>◌}
use cs594_dcn_f.Rdma.{Call, post_recv, Event, EventType, established, disconnected, build_context}
use cs594_dcn_f.Rdma.Setup.{Shared, build_context-Shared}
use cs594_dcn_f.FileTransfer.Common.{Callbacks, rc_init, event_loop}
use cs594_dcn_f.FileTransfer.Loop.{event_loop-Reads}
use cs594_dcn_f.FileTransfer.Messages.{Message, msg_invalid}
use cs594_dcn_f.FileTransfer.Client.{ClientContext, ClientMemory}
use cs594_dcn_f.FileTransfer.Server.{ConnContext, ServerMemory}
use cs594_dcn_f.FileTransfer.Session.{Peers}
use cs594_dcn_f.FileTransfer.Session.Transfer.{IsFileName}
use cs594_dcn_f.Tests.Library.{verbs}

abbrev peers : Peers
peers = record {
  client_verbs = verbs;
  server_verbs = verbs;
  client_id = 5;
  server_id = 6;
  deliver = λ old bytes. bytes ++ drop (length bytes) old;
}

abbrev invalid : Message
invalid = record { id = msg_invalid; addr = 0; rkey = 0 }

abbrev name : List ℕ
name = 97 ∷ 46 ∷ 99 ∷ []

abbrev bytes : List ℕ
bytes = 1 ∷ 0 ∷ 3 ∷ []

abbrev client_context : ClientContext
client_context = record {
  buffer = 1000;
  buffer_mr = 1;
  msg = 2000;
  msg_mr = 2;
  peer_addr = 0;
  peer_rkey = 0;
  fd = 3;
  file_name = name;
  contents = [];
  message = invalid;
  unread = bytes;
}

abbrev conn_context : ConnContext
conn_context = record {
  buffer = 3000;
  buffer_mr = 1;
  msg = 4000;
  msg_mr = 2;
  fd = none;
  file_name = 0 ∷ [];
  contents = [];
  message = invalid;
  written = [];
}

abbrev client : World ClientMemory Call
client = record {
  state = record { s_ctx = none; context_of = λ id. 100; heap = λ p. some client_context };
  log = (post_recv 0 (record { wr_id = 5; sg_list = none }), 0) ∷ [];
}

abbrev server : World ServerMemory Call
server = record {
  state = record { s_ctx = none; context_of = λ id. 200; heap = λ p. some conn_context };
  log = (post_recv 0 (record { wr_id = 6; sg_list = none }), 0) ∷ [];
}

file_name : IsFileName name
file_name = record {
  no_nul = (omega arith, (omega arith, (omega arith, tt)));
  not_empty = omega arith;
  short = omega arith;
}

-- A program that sets no callback.
abbrev callbacks : Callbacks ClientContext
callbacks = rc_init none none none none

abbrev event : EventType → Event
event t = record { event = t; id = 5 }

-- The client is connected, and disconnected twice: the second event is not read.
event_loop-Reads_example :
    Gives
      (event_loop verbs callbacks
        (event established ∷ event disconnected ∷ event disconnected ∷ [])
        true
        client)
      (λ left w'. left ≡ event disconnected ∷ [])
      (λ w'. Unit)
event_loop-Reads_example =
    event_loop-Reads verbs callbacks true
      (event established ∷ event disconnected ∷ event disconnected ∷ []) client

-- Two connections on the device 9, and a context that was created for it.
build_context-Shared_example :
    Gives
      ((build_context verbs 9 >> build_context verbs 9) client)
      (Shared verbs 9 9 client)
      (λ w'. Unit)
build_context-Shared_example = build_context-Shared verbs 9 9 client
