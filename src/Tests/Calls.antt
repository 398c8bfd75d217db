-- ===== src/Tests/Calls.antt =====
-- The theorems of svalin_rpc at concrete inputs.
use svalin.Prelude.{
  ℕ, ◌≡◌, ◌≢◌, ◌+◌, Option, refl, true, false, none, some, List, [], ◌∷◌, ◌++◌, arith,
}
use svalin.Prelude.Result.{ok}
use svalin.Bytes.{Bytes, codes}
use svalin.Certificate.Defs.{Certificate, mark_as_trusted}
use svalin.Rpc.Chunk.{
  max_length, ChunkLength, ChunkReaderError, write_chunk, read_chunk, from_usize, to_usize,
}
use svalin.Rpc.Chunk.RoundTrip.{read-write, to_usize-from_usize}
use svalin.Rpc.Permission.{Peer, certificate, Permission, session_only, default_may}
use svalin.Prelude.Lists.{bytes_eq}
use svalin.Rpc.Handler.{
  SessionResponseHeader, accept, decline, handle_incoming, Session, CommandHandler, new, add,
  handle_session, handle_with_permission,
}
use svalin.Rpc.Handler.Laws.{
  handle_session-changed, IsBuilt, Requires, require, built_new, built_add,
}
use svalin.Rpc.Dispatch.{Caller, HeaderCodec, Dispatcher, takeable, send_request}
use svalin.Rpc.Dispatch.Laws.{IsCoded, Answered, dispatch-Answered}
use svalin.Tests.Fixtures.{demo_user, demo_session, demo_root}

-- svalin_rpc/src/transport/chunked_transport.rs
read-write_example :
    (out : Bytes) × (write_chunk {E = ChunkReaderError} (5 ∷ 6 ∷ 7 ∷ []) ≡ ok out)
    × (read_chunk (out ++ 8 ∷ []) ≡ ok (5 ∷ 6 ∷ 7 ∷ [], 8 ∷ []))
read-write_example = read-write (5 ∷ 6 ∷ 7 ∷ []) (8 ∷ []) (omega arith)

-- The bound itself is written as the length 0.
to_usize-from_usize_example :
    (l : ChunkLength) × (from_usize {E = ChunkReaderError} max_length ≡ ok l) × (to_usize l ≡ 0)
to_usize-from_usize_example = to_usize-from_usize max_length (omega arith)

-- svalin/src/permissions
-- svalin_rpc/src/permissions
abbrev guests : List Certificate
guests = mark_as_trusted demo_session ∷ mark_as_trusted demo_user ∷ []

-- svalin_rpc/src/rpc/command/handler.rs: a handler that counts, of the permission of sessions.
abbrev counter : CommandHandler Permission ℕ ℕ
counter = record {
  decode = λ b. elim b [ [] ↦ none | n ∷ _ ↦ some n ];
  into_permission = λ n. session_only;
  handle = λ n s w. record { result = ok tt; session = some s; world = w + n };
}

abbrev call_of : Peer → Session
call_of peer = record {
  peer = peer;
  incoming = (3 ∷ []) ∷ [];
  is_writable = true;
  outgoing = [];
  is_shut_down = false;
}

abbrev session_peer : Peer
session_peer = certificate (mark_as_trusted demo_session)

count_is :
    (handle_with_permission counter (default_may demo_root) (call_of session_peer) 10).world ≡ 13
unfolding handle_with_permission default_may
count_is = refl

counted :
    (handle_with_permission counter (default_may demo_root) (call_of session_peer) 10).world ≢ 10
counted = omega (arith, count_is)

abbrev no_requirement : Requires Permission
no_requirement _ _ = none

server-IsBuilt :
    IsBuilt
      (default_may demo_root)
      (require (codes "count") counter no_requirement)
      (add (codes "count") counter (new (default_may demo_root)))
server-IsBuilt =
    built_add (codes "count") counter no_requirement (new (default_may demo_root)) built_new

session_count_is :
    (handle_session
      (add (codes "count") counter (new (default_may demo_root)))
      (call_of session_peer)
      (codes "count")
      10).world
    ≡ 13
unfolding handle_session add handle_with_permission new default_may
session_count_is = refl

session_counted :
    (handle_session
      (add (codes "count") counter (new (default_may demo_root)))
      (call_of session_peer)
      (codes "count")
      10).world
    ≢ 10
session_counted = omega (arith, session_count_is)

handle_session-changed_example :
    (b : Bytes) × (rest : List Bytes) × ((call_of session_peer).incoming ≡ b ∷ rest)
    × (p : Permission) × (require (codes "count") counter no_requirement (codes "count") b ≡ some p)
    × (default_may demo_root session_peer p ≡ ok tt)
handle_session-changed_example =
    handle_session-changed (default_may demo_root) (require (codes "count") counter no_requirement)
      (add (codes "count") counter (new (default_may demo_root))) (call_of session_peer)
      (codes "count") 10 server-IsBuilt session_counted

-- svalin_rpc/src/rpc/session.rs: a call that counts, with codes as they are.
abbrev encode_header : SessionResponseHeader → Bytes
encode_header accept = 0 ∷ []
encode_header (decline code) = 1 ∷ code ∷ []

abbrev decode_header : Bytes → Option SessionResponseHeader
decode_header [] = none
decode_header (n ∷ []) = some accept
decode_header (n ∷ code ∷ _) = some (decline code)

abbrev plain : HeaderCodec
plain = record {
  encode_request = λ key. some key;
  decode_request = λ b. some b;
  encode_response = encode_header;
  decode_response = decode_header;
}

abbrev count_call : Dispatcher ℕ ℕ ℕ
count_call = record {
  key = codes "count";
  request = 3;
  encode = λ n. some (n ∷ []);
  dispatch_takeable = takeable (λ s. (ok 5, s));
}

abbrev new_caller : Caller
new_caller = record { incoming = []; is_writable = true; outgoing = []; is_shut_down = false }

decode-encode_header : (r : SessionResponseHeader) → decode_header (encode_header r) ≡ some r
decode-encode_header accept = refl
decode-encode_header (decline code) = refl

count_call-IsCoded : IsCoded plain count_call counter (codes "count") (3 ∷ [])
count_call-IsCoded = record {
  header_written = refl;
  header_read = refl;
  request_written = refl;
  request_read = refl;
  response_read = decode-encode_header;
}

no_command : (new {P = Permission} {W = ℕ} (default_may demo_root)).commands (codes "count") ≡ none
unfolding new
no_command = refl

dispatch-Answered_example :
    Answered plain count_call counter
      (call_of session_peer)
      10
      new_caller
      []
      (bytes_eq (codes "count") (codes "count"))
      ((new {P = Permission} {W = ℕ} (default_may demo_root)).permission_handler session_peer
        session_only)
      (3 ∷ [])
      (handle_incoming plain.decode_request
        (add (codes "count") counter (new (default_may demo_root)))
        (record (call_of session_peer) {
          incoming = (send_request plain count_call new_caller).1.outgoing;
        })
        10)
dispatch-Answered_example =
    dispatch-Answered plain count_call counter (codes "count") (3 ∷ []) count_call-IsCoded
      (call_of session_peer) 10 new_caller [] refl refl refl refl (codes "count")
      (new (default_may demo_root)) no_command
