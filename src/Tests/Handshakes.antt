-- ===== src/Tests/Handshakes.antt =====
-- core/socksudp.go and core/relayspy.go on the bytes of one connection.
use vair.Base.{
  ℕ, ◌+◌, ◌≡◌, refl, Bool, true, List, [], ◌∷◌, ◌++◌, length, arith, inl, Option, none, some, Bytes,
  Outcome, ok, Agrees, codes,
}
use mathlib.Core.List.{flatten}
use vair.Spy.{found, Settles}
use vair.Spy.Request.{socks5_request, socks5_request-Settles}
use vair.Spy.ServerName.{scan, scan_fuel, tls_server_name, tls_server_name-Settles}
use vair.Socks.Client.{socks5_client_cmd, socks5_client_cmd-Settles}
use vair.Socks.Watch.{feed_all, fresh_watch, watch_limit}
use vair.Socks.Handshake.{feed_all-client_stream}
use vair.Socks.Reply.{receive}
use vair.Socks.Reply.Reads.{receive_all, fresh_rewriter, receive_all-flatten}
use vair.Socks.Reply.Associate.{receive_all_associate, associated}

-- Two methods offered, a password, and a UDP ASSOCIATE (command 3).
abbrev associate : Bytes
associate = 5 ∷ 2 ∷ 0 ∷ 2 ∷ 1 ∷ 1 ∷ b'u' ∷ 2 ∷ b'p' ∷ b'w' ∷ 5 ∷ 3 ∷ 0 ∷ 1 ∷ []

abbrev first_read : Bytes
first_read = 5 ∷ 2 ∷ 0 ∷ 2 ∷ []

abbrev second_read : Bytes
second_read = 1 ∷ 1 ∷ b'u' ∷ 2 ∷ b'p' ∷ b'w' ∷ 5 ∷ []

abbrev third_read : Bytes
third_read = 3 ∷ 0 ∷ 1 ∷ []

-- The relay answers with its own IPv4 address and port 513.
abbrev relay : Bytes → ℕ → Option (ℕ × Bytes × ℕ)
relay addr port = some (1, 192 ∷ 168 ∷ 0 ∷ 7 ∷ [], 513)

-- The method with a password, its answer, the answer to the ASSOCIATE on 127.0.0.1:1080.
abbrev engine_read : Bytes
engine_read = 5 ∷ 2 ∷ 1 ∷ 0 ∷ 5 ∷ 0 ∷ 0 ∷ 1 ∷ 127 ∷ 0 ∷ []

abbrev engine_rest : Bytes
engine_rest = 0 ∷ 1 ∷ 4 ∷ 56 ∷ 9 ∷ []

run_client : socks5_client_cmd associate ≡ ok (3, found)
unfolding socks5_client_cmd vair.Base.at vair.Socks.Client.client_auth
    vair.Socks.Client.client_password vair.Socks.Client.client_request
run_client = refl

feed_all-client_stream_example :
    feed_all fresh_watch (first_read ∷ second_read ∷ third_read ∷ [])
    ≡ ok (record { buf = []; done = true; cmd = 3 })
unfolding watch_limit flatten
feed_all-client_stream_example =
    feed_all-client_stream (0 ∷ 2 ∷ []) (some (codes "u", codes "pw")) 3 (0 ∷ 1 ∷ []) first_read
      (second_read ∷ third_read ∷ []) refl (omega arith)

receive_all-flatten_example :
    Agrees
      (receive_all 3 relay fresh_rewriter (engine_read ∷ engine_rest ∷ []))
      (receive 3 relay fresh_rewriter (flatten (engine_read ∷ engine_rest ∷ [])))
receive_all-flatten_example =
    receive_all-flatten 3 relay fresh_rewriter engine_read (engine_rest ∷ [])

receive_all_associate_example :
    receive_all 3 relay fresh_rewriter (engine_read ∷ engine_rest ∷ [])
    ≡ ok (
        associated relay 1
          (127 ∷ 0 ∷ 0 ∷ 1 ∷ [])
          (inl (refl, refl))
          4
          56
          1
          (192 ∷ 168 ∷ 0 ∷ 7 ∷ [])
          513
          refl
          2
          (9 ∷ []))
unfolding flatten
receive_all_associate_example =
    receive_all_associate relay 1 (127 ∷ 0 ∷ 0 ∷ 1 ∷ []) (inl (refl, refl)) 4 56 1
      (192 ∷ 168 ∷ 0 ∷ 7 ∷ []) 513 refl 2 0 (9 ∷ []) engine_read (engine_rest ∷ [])
      (λ e. absurd (omega arith)) refl

socks5_request-Settles_example :
    Settles
      (socks5_request (5 ∷ 1 ∷ 0 ∷ 5 ∷ 1 ∷ 0 ∷ 1 ∷ 1 ∷ 2 ∷ 3 ∷ 4 ∷ 0 ∷ 80 ∷ []))
      (socks5_request (5 ∷ 1 ∷ 0 ∷ 5 ∷ 1 ∷ 0 ∷ 1 ∷ 1 ∷ 2 ∷ 3 ∷ 4 ∷ 0 ∷ 80 ∷ 7 ∷ []))
socks5_request-Settles_example =
    socks5_request-Settles (5 ∷ 1 ∷ 0 ∷ 5 ∷ 1 ∷ 0 ∷ 1 ∷ 1 ∷ 2 ∷ 3 ∷ 4 ∷ 0 ∷ 80 ∷ []) (7 ∷ [])

-- A ClientHello with no session, one cipher and one extension, the name "a".
abbrev hello_bytes : Bytes
hello_bytes =
    (1 ∷ 0 ∷ 0 ∷ 57 ∷ 3 ∷ 3 ∷ [])
    ++ (codes "12345678123456781234567812345678"
        ++ (0 ∷ 0 ∷ 2 ∷ 19 ∷ 1 ∷ 1 ∷ 0 ∷ 0 ∷ 10 ∷ 0 ∷ 0 ∷ 0 ∷ 6 ∷ 0 ∷ 4 ∷ 0 ∷ 0 ∷ 1 ∷ 97 ∷ []))

abbrev any_name : Bytes → Bool
any_name s = true

tls_server_name-Settles_example :
    Settles
      (tls_server_name any_name (22 ∷ 3 ∷ 1 ∷ 0 ∷ 57 ∷ hello_bytes))
      (tls_server_name any_name ((22 ∷ 3 ∷ 1 ∷ 0 ∷ 57 ∷ hello_bytes) ++ 9 ∷ []))
tls_server_name-Settles_example =
    tls_server_name-Settles any_name (22 ∷ 3 ∷ 1 ∷ 0 ∷ 57 ∷ hello_bytes) (9 ∷ [])

scan_fuel_example :
    scan any_name (3 + length hello_bytes) hello_bytes 57 45
    ≡ scan any_name (length hello_bytes) hello_bytes 57 45
scan_fuel_example = scan_fuel any_name 3 hello_bytes 57 45 (omega arith)
