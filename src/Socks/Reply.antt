-- ===== src/Socks/Reply.antt =====
-- core/socksudp.go: `socksReplyRewriter`, the engine's side of a SOCKS5 handshake.
-- `cmd` is what `w.cmd()` answers, `relay` what `w.relay` answers for an address and a port.
pub mod Cuts
pub mod Reads
pub mod Associate
pub mod Content
use vair.Base.{
  ℕ, ◌+◌, ◌*◌, ◌/◌, ◌%◌, ◌≤◌, ◌<◌, ◌≡◌, refl, sym, ap, ◌∙◌, Bool, true, false, not, ◌&&◌, ◌||◌,
  List, [], ◌∷◌, ◌++◌, append_assoc, append-nil, arith, ltb, ◌==◌, if◌then◌else◌, length, take,
  drop, length-append, Bytes, Outcome, ok, ◌>>=◌, at, Option, none, some,
}

pub data Stage : Type 0 where
  method_choice password_answer request_answer passed : Stage

pub record Rewriter : Type 0 where
  pub buf : Bytes
  pub out : Bytes
  pub stage : Stage
  pub method : ℕ

-- `through`: gives up on reading the handshake.
unfoldable pub through : Rewriter → Rewriter
through w = record w { out = w.out ++ w.buf; buf = []; stage = passed }

eq_bytes : Bytes → Bytes → Bool
eq_bytes [] [] = true
eq_bytes (a ∷ xs) (b ∷ ys) = a == b && eq_bytes xs ys
eq_bytes _ _ = false

-- `net.IP.IsUnspecified`: 0.0.0.0, as four bytes or mapped into IPv6, or the IPv6 ::.
unfoldable pub is_unspecified : Bytes → Bool
unfolding eq_bytes
is_unspecified ip =
    eq_bytes ip (0 ∷ 0 ∷ 0 ∷ 0 ∷ [])
    || eq_bytes ip (0 ∷ 0 ∷ 0 ∷ 0 ∷ 0 ∷ 0 ∷ 0 ∷ 0 ∷ 0 ∷ 0 ∷ 0 ∷ 0 ∷ 0 ∷ 0 ∷ 0 ∷ 0 ∷ [])
    || eq_bytes ip (0 ∷ 0 ∷ 0 ∷ 0 ∷ 0 ∷ 0 ∷ 0 ∷ 0 ∷ 0 ∷ 0 ∷ 255 ∷ 255 ∷ 0 ∷ 0 ∷ 0 ∷ 0 ∷ [])

abbrev pub localhost : Bytes
localhost = 127 ∷ 0 ∷ 0 ∷ 1 ∷ []

-- `binary.BigEndian.AppendUint16(nil, uint16(n))`.
abbrev pub big_endian16 : ℕ → Bytes
big_endian16 n = ((n / 256) % 256) ∷ (n % 256) ∷ []

-- `alen` by the address type; `none` is the `default` of the switch.
unfoldable pub address_length : Bytes → ℕ → Outcome (Option ℕ)
address_length buf atyp =
    if atyp == 1
    then ok (some 4)
    else if atyp == 4
    then ok (some 16)
    else if atyp == 3
    then (at buf 4 >>= λ n. ok (some (1 + n)))
    else ok none

-- The two directions of one connection meet here.
module _ (cmd : ℕ) (relay : Bytes → ℕ → Option (ℕ × Bytes × ℕ)) where
  unfoldable pub relayed : Bytes → Option (ℕ × Bytes × ℕ) → Bytes
  relayed msg none = msg
  relayed msg (some (atyp, addr, port)) = 5 ∷ 0 ∷ 0 ∷ atyp ∷ (addr ++ big_endian16 port)

  unfoldable pub rewrite_answer : Bytes → ℕ → Outcome Bytes
  unfolding relayed
  rewrite_answer msg alen = at msg (4 + alen) >>= λ high. at msg (5 + alen) >>= λ low.
      let ip = take alen (drop 4 msg) in
      ok (relayed msg (relay (if is_unspecified ip then localhost else ip) (high * 256 + low)))

  unfoldable pub answer_message : Bytes → ℕ → Outcome Bytes
  answer_message msg alen = at msg 0 >>= λ version. at msg 1 >>= λ status. at msg 3 >>= λ atyp.
      if version == 5 && status == 0 && cmd == 3 && not (atyp == 3)
      then rewrite_answer msg alen
      else ok msg

  unfoldable pub answer : Rewriter → ℕ → Outcome Rewriter
  answer w alen =
      let total = 4 + alen + 2 in
      if ltb (length w.buf) total
      then ok w
      else answer_message (take total w.buf) alen >>= λ msg.
          ok (record w { out = (w.out ++ msg) ++ drop total w.buf; buf = []; stage = passed })

  unfoldable pub answer_or_through : Rewriter → Option ℕ → Outcome Rewriter
  unfolding answer through
  answer_or_through w none = ok (through w)
  answer_or_through w (some alen) = answer w alen

  -- The round of `parse` at stage 2. Each round returns or goes on to a later stage, so that the
  -- loop is written as one function for each stage, which calls those of the later stages.
  unfoldable pub parse_request : Rewriter → Outcome Rewriter
  unfolding answer_or_through address_length
  parse_request w =
      if ltb (length w.buf) 5
      then ok w
      else at w.buf 3 >>= λ atyp. address_length w.buf atyp >>= λ alen. answer_or_through w alen

  -- The round at stage 1.
  unfoldable pub parse_password : Rewriter → Outcome Rewriter
  unfolding through
  parse_password w =
      if ltb (length w.buf) 2
      then ok w
      else at (take 2 w.buf) 1 >>= λ status.
          if not (status == 0)
          then ok (through w)
          else parse_request
              (record w { stage = request_answer; out = w.out ++ take 2 w.buf; buf = drop 2 w.buf })

  -- The round at stage 0.
  unfoldable pub parse_method : Rewriter → Outcome Rewriter
  unfolding through
  parse_method w =
      if ltb (length w.buf) 2
      then ok w
      else at (take 2 w.buf) 0 >>= λ version. at (take 2 w.buf) 1 >>= λ chosen.
          if not (version == 5) || chosen == 255
          then ok (through w)
          else if chosen == 2
          then parse_password (record w {
            method = chosen;
            stage = password_answer;
            out = w.out ++ take 2 w.buf;
            buf = drop 2 w.buf;
          })
          else parse_request (record w {
            method = chosen;
            stage = request_answer;
            out = w.out ++ take 2 w.buf;
            buf = drop 2 w.buf;
          })

  unfoldable pub parse_stage : Stage → Rewriter → Outcome Rewriter
  parse_stage method_choice w = parse_method w
  parse_stage password_answer w = parse_password w
  parse_stage request_answer w = parse_request w
  parse_stage passed w = ok w

  unfoldable pub parse : Rewriter → Outcome Rewriter
  unfolding parse_stage
  parse w = parse_stage w.stage w

  -- What one `w.r.Read` of `Read` does with the bytes that it got: behind the handshake they pass
  -- as they are.
  unfoldable pub receive : Rewriter → Bytes → Outcome Rewriter
  receive w p = elim w.stage [
    | passed ↦ ok (record w { out = w.out ++ p })
    | _ ↦ parse (record w { buf = w.buf ++ p })
  ]
