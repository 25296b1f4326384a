-- ===== src/Socks/Client.antt =====
-- core/socksudp.go: the client's side of a SOCKS5 handshake, read as it passes.
use vair.Base.{
  ℕ, ◌+◌, not, ◌++◌, arith, ltb, ◌==◌, if◌then◌else◌, length, Bytes, Outcome, ok, ◌>>=◌, at,
}
use vair.Spy.{
  SpyState, need_more, found, rejected, Settles, Settles-answer, Settles-if, Settles-at,
  Settles-need,
}

unfoldable pub client_request : Bytes → ℕ → Outcome (ℕ × SpyState)
client_request b off =
    if ltb (length b) (off + 2)
    then ok (0, need_more)
    else at b off >>= λ v.
        if not (v == 5) then ok (0, rejected) else at b (off + 1) >>= λ c. ok (c, found)

unfoldable pub client_password : Bytes → ℕ → Outcome (ℕ × SpyState)
client_password b off =
    if ltb (length b) (off + 2)
    then ok (0, need_more)
    else at b (off + 1) >>= λ ulen.
        if ltb (length b) (off + 3 + ulen)
        then ok (0, need_more)
        else at b (off + 2 + ulen) >>= λ plen. client_request b (off + (3 + ulen + plen))

unfoldable pub client_auth : Bytes → ℕ → Outcome (ℕ × SpyState)
client_auth b off =
    if ltb (length b) (off + 1)
    then ok (0, need_more)
    else at b off >>= λ v. if v == 1 then client_password b off else client_request b off

unfoldable pub socks5_client_cmd : Bytes → Outcome (ℕ × SpyState)
socks5_client_cmd b =
    if ltb (length b) 2
    then ok (0, need_more)
    else at b 0 >>= λ v.
        if not (v == 5) then ok (0, rejected) else at b 1 >>= λ methods. client_auth b (2 + methods)

client_request-Settles :
    (b more : Bytes) (off : ℕ) → Settles (client_request b off) (client_request (b ++ more) off)
unfolding client_request
client_request-Settles b more off = Settles-need b more (off + 2) 0 λ h.
    Settles-at b more off (omega arith) λ v.
      Settles-if (not (v == 5)) (Settles-answer (0, rejected))
        (Settles-at b more (off + 1) (omega arith) λ c. Settles-answer (c, found))

client_password-Settles :
    (b more : Bytes) (off : ℕ) → Settles (client_password b off) (client_password (b ++ more) off)
unfolding client_password
client_password-Settles b more off = Settles-need b more (off + 2) 0 λ h.
    Settles-at b more (off + 1) (omega arith) λ ulen. Settles-need b more (off + 3 + ulen) 0 λ h'.
      Settles-at b more (off + 2 + ulen) (omega arith)
        λ plen. client_request-Settles b more (off + (3 + ulen + plen))

client_auth-Settles :
    (b more : Bytes) (off : ℕ) → Settles (client_auth b off) (client_auth (b ++ more) off)
unfolding client_auth
client_auth-Settles b more off = Settles-need b more (off + 1) 0 λ h.
    Settles-at b more off (omega arith) λ v.
      Settles-if (v == 1) (client_password-Settles b more off) (client_request-Settles b more off)

-- Reading the client's handshake never indexes out of range, and the command byte or the
-- refusal that it concludes stays the same whatever bytes follow.
pub socks5_client_cmd-Settles :
    (b more : Bytes) → Settles (socks5_client_cmd b) (socks5_client_cmd (b ++ more))
unfolding socks5_client_cmd
socks5_client_cmd-Settles b more = Settles-need b more 2 0 λ h.
    Settles-at b more 0 (omega arith) λ v.
      Settles-if (not (v == 5)) (Settles-answer (0, rejected))
        (Settles-at b more 1 (omega arith) λ methods. client_auth-Settles b more (2 + methods))
