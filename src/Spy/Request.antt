-- ===== src/Spy/Request.antt =====
-- core/relayspy.go: `socks5Request`, the destination of a SOCKS5 CONNECT. The text that
-- `net.JoinHostPort` makes of a destination is not modelled: a destination is its parts.

use vair.Base.{
  ℕ, ◌+◌, ◌≤◌, not, ◌||◌, [], ◌++◌, arith, ltb, ◌==◌, if◌then◌else◌, length, Bytes, Outcome, ok,
  ◌>>=◌, at, slice, slice_in_range, uint16, uint16_in_range,
}
use vair.Spy.{
  SpyState, need_more, found, rejected, Settles, Settles-answer, Settles-if, Settles-at,
  Settles-need,
}

-- `ip` is printed by `net.IP.String`, a `name` is the client's bytes.
pub data Host : Type 0 where
  ip name : Bytes → Host

pub record Dest : Type 0 where
  pub host : Host
  pub port : ℕ

abbrev pub no_dest : Dest × ℕ
no_dest = (record { host = name []; port = 0 }, 0)

-- The result is the destination, the bytes that the request took, and the state.
unfoldable pub request_port : Bytes → Host → ℕ → Outcome ((Dest × ℕ) × SpyState)
request_port b h p = uint16 b p >>= λ port. ok ((record { host = h; port = port }, p + 2), found)

unfoldable pub request_address : Bytes → ℕ → ℕ → Outcome ((Dest × ℕ) × SpyState)
request_address b atyp p =
    if atyp == 1
    then if ltb (length b) (p + 6)
      then ok (no_dest, need_more)
      else (slice b p 4 >>= λ s. request_port b (ip s) (p + 4))
    else if atyp == 3
    then if ltb (length b) (p + 1)
      then ok (no_dest, need_more)
      else (at b p >>= λ l.
          if ltb (length b) (p + 1 + l + 2)
          then ok (no_dest, need_more)
          else slice b (p + 1) l >>= λ s. request_port b (name s) (p + (1 + l)))
    else if atyp == 4
    then if ltb (length b) (p + 18)
      then ok (no_dest, need_more)
      else (slice b p 16 >>= λ s. request_port b (ip s) (p + 16))
    else ok (no_dest, rejected)

unfoldable pub request_connect : Bytes → ℕ → Outcome ((Dest × ℕ) × SpyState)
request_connect b off =
    if ltb (length b) (off + 4)
    then ok (no_dest, need_more)
    else at b off >>= λ version. at b (off + 1) >>= λ cmd.
        if not (version == 5) || not (cmd == 1)
        then ok (no_dest, rejected)
        else at b (off + 3) >>= λ atyp. request_address b atyp (off + 4)

unfoldable pub request_password : Bytes → ℕ → Outcome ((Dest × ℕ) × SpyState)
request_password b off =
    if ltb (length b) (off + 2)
    then ok (no_dest, need_more)
    else at b (off + 1) >>= λ ulen.
        if ltb (length b) (off + 3 + ulen)
        then ok (no_dest, need_more)
        else at b (off + 2 + ulen) >>= λ plen.
            if ltb (length b) (off + (3 + ulen + plen) + 1)
            then ok (no_dest, need_more)
            else request_connect b (off + (3 + ulen + plen))

unfoldable pub request_auth : Bytes → ℕ → Outcome ((Dest × ℕ) × SpyState)
request_auth b off =
    if ltb (length b) (off + 1)
    then ok (no_dest, need_more)
    else at b off >>= λ v. if v == 1 then request_password b off else request_connect b off

unfoldable pub socks5_request : Bytes → Outcome ((Dest × ℕ) × SpyState)
socks5_request b =
    if ltb (length b) 2
    then ok (no_dest, need_more)
    else at b 1 >>= λ methods. request_auth b (2 + methods)

Settles-slice :
    (b more : Bytes) (p n : ℕ) {f g : Bytes → Outcome ((Dest × ℕ) × SpyState)}
    → p + n ≤ length b
    → ((s : Bytes) → Settles (f s) (g s))
    → Settles (slice b p n >>= f) (slice (b ++ more) p n >>= g)
Settles-slice b more p n h r = let (s, e, e') = slice_in_range b more p n h in rw (e, e') (r s)

request_port-Settles :
    (b more : Bytes) (h : Host) (p : ℕ)
    → p + 2 ≤ length b
    → Settles (request_port b h p) (request_port (b ++ more) h p)
unfolding request_port
request_port-Settles b more h p r =
    let (n, e, e') = uint16_in_range b more p r in rw (e, e') (Settles-answer _)

request_address-Settles :
    (b more : Bytes) (atyp p : ℕ)
    → Settles (request_address b atyp p) (request_address (b ++ more) atyp p)
unfolding request_address
request_address-Settles b more atyp p =
    Settles-if (atyp == 1)
      (Settles-need b more (p + 6) no_dest λ h.
        Settles-slice b more p 4 (omega arith)
          λ s. request_port-Settles b more (ip s) (p + 4) (omega arith))
      (Settles-if (atyp == 3)
        (Settles-need b more (p + 1) no_dest λ h. Settles-at b more p (omega arith) λ l.
          Settles-need b more (p + 1 + l + 2) no_dest λ h'.
            Settles-slice b more (p + 1) l (omega arith)
              λ s. request_port-Settles b more (name s) (p + (1 + l)) (omega arith))
        (Settles-if (atyp == 4)
          (Settles-need b more (p + 18) no_dest λ h.
            Settles-slice b more p 16 (omega arith)
              λ s. request_port-Settles b more (ip s) (p + 16) (omega arith))
          (Settles-answer _)))

request_connect-Settles :
    (b more : Bytes) (off : ℕ) → Settles (request_connect b off) (request_connect (b ++ more) off)
unfolding request_connect
request_connect-Settles b more off = Settles-need b more (off + 4) no_dest λ h.
    Settles-at b more off (omega arith) λ v. Settles-at b more (off + 1) (omega arith) λ c.
      Settles-if (not (v == 5) || not (c == 1)) (Settles-answer _) (
        Settles-at b more (off + 3) (omega arith)
          λ atyp. request_address-Settles b more atyp (off + 4))

request_password-Settles :
    (b more : Bytes) (off : ℕ) → Settles (request_password b off) (request_password (b ++ more) off)
unfolding request_password
request_password-Settles b more off = Settles-need b more (off + 2) no_dest λ h.
    Settles-at b more (off + 1) (omega arith) λ ulen.
      Settles-need b more (off + 3 + ulen) no_dest λ h'.
        Settles-at b more (off + 2 + ulen) (omega arith) λ plen.
          Settles-need b more (off + (3 + ulen + plen) + 1) no_dest
            λ _. request_connect-Settles b more (off + (3 + ulen + plen))

request_auth-Settles :
    (b more : Bytes) (off : ℕ) → Settles (request_auth b off) (request_auth (b ++ more) off)
unfolding request_auth
request_auth-Settles b more off = Settles-need b more (off + 1) no_dest λ h.
    Settles-at b more off (omega arith) λ v.
      Settles-if (v == 1) (request_password-Settles b more off) (request_connect-Settles b more off)

-- Reading a SOCKS5 request never indexes out of range, whatever the bytes are, and the
-- destination, the length of the request or the refusal that it concludes stays the same
-- whatever bytes follow.
pub socks5_request-Settles :
    (b more : Bytes) → Settles (socks5_request b) (socks5_request (b ++ more))
unfolding socks5_request
socks5_request-Settles b more =
    Settles-need b more 2 no_dest
      λ h. Settles-at b more 1 (omega arith) λ methods. request_auth-Settles b more (2 + methods)
