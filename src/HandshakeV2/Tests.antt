-- ===== src/HandshakeV2/Tests.antt =====
-- Concrete frames of src/session/handshake_v2.cpp.
use aegis.Prelude.{some, replicate, arith, ◌≡◌, refl, ◌>>=◌}
use aegis.HandshakeV2.{
  HandshakeV2InitFrame, HandshakeV2ResponseFrame, serialize_handshake_v2_init,
  parse_handshake_v2_init,
}
use aegis.HandshakeV2.RoundTrip.{IsInitFrame, parse-serialize_init}

abbrev hello : HandshakeV2InitFrame
hello = record { session_id = 70000; network_id = replicate 32 9; noise_message = replicate 96 4 }

abbrev answer : HandshakeV2ResponseFrame
answer = record { session_id = 70000; noise_message = replicate 48 4 }

hello-IsInitFrame : IsInitFrame hello
hello-IsInitFrame = record {
  session_id_fits = omega arith;
  session_id_used = omega arith;
  network_id_size = refl;
  noise_message_size = refl;
}

parse-serialize_init_example :
    (serialize_handshake_v2_init hello >>= parse_handshake_v2_init) ≡ some hello
parse-serialize_init_example = parse-serialize_init hello hello-IsInitFrame
