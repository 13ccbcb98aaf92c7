-- ===== src/Tests/Serving.antt =====
-- Runs of the server's loop: a silent workstation, one that answers only, and a sequential read.
use yamashnik.Bdos.Exec.{exec_func, exec}
use yamashnik.Prelude.{
  refl, sym, List, [], ◌∷◌, ◌++◌, Bytes, replicate, length-replicate, arith, inl, inr, take, drop,
  take-append-drop, ◌≡◌, done, Every,
}
use yamashnik.Serial.{silence, arrived}
use yamashnik.Request.Message.{fcb_field, byte_field, message}
use yamashnik.Request.Table.{pattern_of, func_of}
use yamashnik.Fcb.{to_bytes}
use yamashnik.Prelude.{ℕ}
use yamashnik.Transport.{bootstrap}
use yamashnik.Bdos.Exec.{exec_func, exec}
use yamashnik.Bdos.Drive
use yamashnik.Response.{emit, emit_tokens, respond, set_aux_data}
use yamashnik.Request.{set_func, expect}
use yamashnik.Serve.{Server, serve}
use yamashnik.Serve.Session.{
  Call, IsCall, Visit, absent, mute, call, stream, session, Refines, Account,
}
use yamashnik.Fcb.{get_file_name, extract_file_name}
use yamashnik.Serve.Spares.{NamesNot, ServerKeeps, serve-ServerKeeps}
use yamashnik.Serve.Refine.{serve-Refines}
use yamashnik.Serve.Sound.{IsSoundServer, serve-IsSoundServer}
use yamashnik.Tests.Data.{test_host, test_world, test_request, test_block}
use yamashnik.Tests.Receive.{test_block-IsFcb}

abbrev pub read_message : Bytes
read_message = message (fcb_field test_block ∷ [])

abbrev pub read_call : Call
read_call = record {
  late = 1;
  answer = 0x7f;
  slow = 0;
  code = 0x06;
  fields = fcb_field test_block ∷ [];
  pieces = arrived (take 20 read_message) ∷ silence ∷ arrived (drop 20 read_message) ∷ [];
}

abbrev pub visits : List Visit
visits = absent ∷ mute 2 0xff ∷ call read_call ∷ []

abbrev pub test_server : Server
test_server = record {
  line = record {
    port = record { sent = []; input = stream visits ++ silence ∷ [] };
    self = record {
      state = bootstrap;
      func = 0;
      rq = test_request;
      rxbuf = replicate 65536 0;
      rxpos = 0;
    };
  };
  world = test_world;
}

pub read_call-IsCall : IsCall 4 read_call
unfolding pattern_of func_of to_bytes
read_call-IsCall = record {
  in_time = omega arith;
  answers = inr refl;
  on_time = omega arith;
  known = refl;
  valid = (test_block-IsFcb, tt);
  small = omega arith;
  enough = omega arith;
  brought = (
    omega arith,
    inr (
      drop 20 read_message,
      sym (take-append-drop 20 read_message),
      (omega arith, inl (refl, refl, omega arith)),
    ),
  );
}

serve-Refines_example :
    Refines []
      (silence ∷ [])
      (serve test_host 4 3 3 test_server)
      (session test_host 3 visits test_request test_world)
serve-Refines_example =
    serve-Refines test_host 3 4 visits (silence ∷ []) test_server
      (tt, ((omega arith, inl refl), (read_call-IsCall, tt))) (length-replicate {A = ℕ} 65536 0)
      refl

-- The deletion of `A.C`.
abbrev delete_call : Call
delete_call = record {
  late = 0;
  answer = 0xff;
  slow = 9;
  code = 0x05;
  fields = fcb_field test_block ∷ [];
  pieces = arrived (take 46 read_message) ∷ [];
}

delete_call-IsCall : IsCall 4 delete_call
unfolding pattern_of func_of to_bytes
delete_call-IsCall = record {
  in_time = omega arith;
  answers = inl refl;
  on_time = omega arith;
  known = refl;
  valid = (test_block-IsFcb, tt);
  small = omega arith;
  enough = omega arith;
  brought = (omega arith, inl (refl, refl, omega arith));
}

abbrev deleting : List Visit
deleting = call read_call ∷ call delete_call ∷ []

abbrev other_name : Bytes
other_name = b'B' ∷ []

deleting-NamesNot : NamesNot other_name deleting test_request
unfolding func_of set_func expect get_file_name extract_file_name yamashnik.Fcb.c_string
    yamashnik.Fcb.until_space
deleting-NamesNot = (tt, ((λ e. cc e, tt), tt))

abbrev deleting_server : Server
deleting_server = record test_server {
  line = record (test_server.line) { port = record { sent = []; input = stream deleting ++ [] } };
}

serve-ServerKeeps_example :
    ServerKeeps other_name test_world (serve test_host 4 3 2 deleting_server)
serve-ServerKeeps_example =
    serve-ServerKeeps test_host 3 4 other_name deleting [] deleting_server
      (read_call-IsCall, (delete_call-IsCall, tt)) (length-replicate {A = ℕ} 65536 0) refl
      deleting-NamesNot

-- A call that selects drive 1: a poll and a result are sent.
account_done :
    (a : Account) × (session test_host 3
        (call (record {
          late = 0;
          answer = 0xff;
          slow = 0;
          code = 0;
          fields = byte_field 1 ∷ [];
          pieces = arrived (1 ∷ []) ∷ [];
        })
          ∷ [])
        test_request
        test_world
      ≡ done a)
    × (a.out ≡ 3 ∷ 0xF4 ∷ 1 ∷ [])
unfolding exec_func exec func_of set_func expect Drive.select_disk emit emit_tokens respond
    set_aux_data
account_done = (_, refl, refl)

-- The same server on a line that does not keep to the protocol.
abbrev noisy_server : Server
noisy_server = record test_server {
  line = record (test_server.line) {
    port = record {
      sent = [];
      input = arrived (1 ∷ 2 ∷ 3 ∷ []) ∷ silence ∷ arrived (0xff ∷ []) ∷ [];
    };
    self = record (test_server.line.self) {
      rq = record test_request { dma_buf = replicate 65536 0 };
    };
  };
}

serve-IsSoundServer_example : Every IsSoundServer (serve test_host 4 3 2 noisy_server)
serve-IsSoundServer_example = serve-IsSoundServer test_host 4 3 2 noisy_server (record {
  whole = length-replicate {A = ℕ} 65536 0;
  sound = record {
    counted = omega arith;
    few = omega arith;
    places = refl;
    room = length-replicate {A = ℕ} 65536 0;
    name = refl;
  };
})
