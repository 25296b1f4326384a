-- ===== src/Socks/Handshake.antt =====
-- The client's side of a SOCKS5 handshake as RFC 1928 and RFC 1929 write it.
use vair.Base.{
  ℕ, ◌+◌, ◌<◌, true, ◌≡◌, subst, length-append, ◌∙◌, List, [], ◌∷◌, ◌++◌, append_assoc, arith,
  length, Bytes, ok, at, Option, none, some, at-append, ltb-append, add_assoc,
}
use vair.Spy.{found}
use vair.Socks.Client.{socks5_client_cmd, client_auth, client_password, client_request}
use vair.Socks.Watch.{watch_limit, fresh_watch, feed, feed_all, conclude, feed_all-flatten}
use mathlib.Core.List.{flatten}

-- A message of the username/password exchange.
abbrev pub password_message : Option (Bytes × Bytes) → Bytes → Bytes
password_message none rest = rest
password_message (some (user, pass)) rest =
    1 ∷ length user ∷ (user ++ (length pass ∷ (pass ++ rest)))

-- Greeting, password exchange if there is one, request.
abbrev pub client_stream : Bytes → Option (Bytes × Bytes) → ℕ → Bytes → Bytes
client_stream methods creds cmd rest =
    5 ∷ length methods ∷ (methods ++ password_message creds (5 ∷ cmd ∷ rest))

client_request-append :
    (pre b : Bytes) (off : ℕ) → client_request (pre ++ b) (length pre + off) ≡ client_request b off
unfolding client_request
client_request-append pre b off = simp (add_assoc, at-append, ltb-append)

client_password-append :
    (pre b : Bytes) (off : ℕ)
    → client_password (pre ++ b) (length pre + off) ≡ client_password b off
unfolding client_password
client_password-append pre b off = simp (add_assoc, at-append, ltb-append, client_request-append)

client_auth-append :
    (pre b : Bytes) (off : ℕ) → client_auth (pre ++ b) (length pre + off) ≡ client_auth b off
unfolding client_auth
client_auth-append pre b off =
    simp (add_assoc, at-append, ltb-append, client_request-append, client_password-append)

request_head :
    (pre rest : Bytes) (cmd off : ℕ)
    → off ≡ length pre + 0
    → client_request (pre ++ 5 ∷ cmd ∷ rest) off ≡ ok (cmd, found)
unfolding client_request at
request_head pre rest cmd off e = rw (e, client_request-append pre) (ground arith)

password_head :
    (user pass rest : Bytes) (cmd : ℕ)
    → client_password (password_message (some (user, pass)) (5 ∷ cmd ∷ rest)) 0 ≡ ok (cmd, found)
unfolding client_password at
password_head user pass rest cmd =
    let behind_user : at (password_message (some (user, pass)) (5 ∷ cmd ∷ rest))
          (0 + 2 + length user)
        ≡ ok (length pass) =
      subst (λ k. at (password_message (some (user, pass)) (5 ∷ cmd ∷ rest)) k ≡ ok (length pass))
        {x = length (1 ∷ length user ∷ user) + 0} (omega arith)
        (at-append (1 ∷ length user ∷ user) (length pass ∷ (pass ++ 5 ∷ cmd ∷ rest)) 0) in
    let request : client_request (password_message (some (user, pass)) (5 ∷ cmd ∷ rest))
          (0 + (3 + length user + length pass))
        ≡ ok (cmd, found) =
      rw (append_assoc user (length pass ∷ pass) (5 ∷ cmd ∷ rest)) at (
        request_head (1 ∷ length user ∷ (user ++ length pass ∷ pass)) rest cmd
          (0 + (3 + length user + length pass))
          (omega (arith, length-append user (length pass ∷ pass)))) in
    ground (
      arith,
      behind_user,
      request,
      length-append user (length pass ∷ (pass ++ 5 ∷ cmd ∷ rest)),
      length-append pass (5 ∷ cmd ∷ rest),
    )

auth_head :
    (creds : Option (Bytes × Bytes)) (cmd : ℕ) (rest : Bytes)
    → client_auth (password_message creds (5 ∷ cmd ∷ rest)) 0 ≡ ok (cmd, found)
unfolding client_auth at
auth_head none cmd rest = ground (arith, request_head [] rest cmd 0 (omega arith))
auth_head (some (user, pass)) cmd rest = ground (arith, password_head user pass rest cmd)

-- The watch reads the command byte of every well-formed client: any methods offered, with or
-- without a password, whatever follows the request's command.
pub socks5_client_cmd-client_stream :
    (methods : Bytes) (creds : Option (Bytes × Bytes)) (cmd : ℕ) (rest : Bytes)
    → socks5_client_cmd (client_stream methods creds cmd rest) ≡ ok (cmd, found)
unfolding socks5_client_cmd at
socks5_client_cmd-client_stream methods creds cmd rest =
    let behind : client_auth (client_stream methods creds cmd rest) (2 + length methods)
        ≡ ok (cmd, found) =
      subst (λ k. client_auth (client_stream methods creds cmd rest) k ≡ ok (cmd, found))
        {x = length (5 ∷ length methods ∷ methods) + 0} (omega arith)
        (client_auth-append (5 ∷ length methods ∷ methods) (password_message creds (5 ∷ cmd ∷ rest))
            0
          ∙ auth_head creds cmd rest) in
    ground (arith, behind)

-- However a well-formed client's stream is cut into reads, the watch is done after them and holds
-- the request's command, if the stream stays under the watch's limit.
pub feed_all-client_stream :
    (methods : Bytes) (creds : Option (Bytes × Bytes)) (cmd : ℕ) (rest p : Bytes) (ps : List Bytes)
    → flatten (p ∷ ps) ≡ client_stream methods creds cmd rest
    → length (client_stream methods creds cmd rest) < watch_limit
    → feed_all fresh_watch (p ∷ ps) ≡ ok (record { buf = []; done = true; cmd = cmd })
unfolding feed conclude
feed_all-client_stream methods creds cmd rest p ps whole short =
    feed_all-flatten fresh_watch p ps (rw whole short)
    ∙ rw (whole, socks5_client_cmd-client_stream methods creds cmd rest)
