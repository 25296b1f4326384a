-- ===== src/Socks/Reply/Associate.antt =====
-- The answer to a UDP ASSOCIATE, rewritten.
use vair.Base.{
  ℕ, ◌+◌, ◌*◌, ◌≤◌, ◌≡◌, ◌≢◌, ◌⊎◌, inl, inr, refl, sym, ap, subst, ◌∙◌, List, [], ◌∷◌, ◌++◌, arith,
  le→ltb, ◌==◌, if◌then◌else◌, length, length-append, take_all, drop_all, Bytes, ok, at, at-append,
  Option, some,
}
use vair.Socks.Reply.{
  request_answer, passed, Rewriter, receive, parse, parse_stage, parse_method, parse_password,
  parse_request, answer_or_through, answer, answer_message, rewrite_answer, address_length,
  is_unspecified, localhost, big_endian16, relayed,
}
use vair.Socks.Reply.Reads.{receive_all, receive_all-flatten, fresh_rewriter}
use mathlib.Core.List.{flatten}

-- RFC 1928: success, the address and the port at which the engine takes datagrams.
abbrev pub answer_bytes : ℕ → ℕ → Bytes → ℕ → ℕ → Bytes
answer_bytes reserved atyp ip high low = 5 ∷ 0 ∷ reserved ∷ atyp ∷ (ip ++ high ∷ low ∷ [])

abbrev pub reachable : Bytes → Bytes
reachable ip = if is_unspecified ip then localhost else ip

-- An IPv4 or an IPv6 address, with its type.
abbrev pub IsAddress : ℕ → Bytes → Type 0
IsAddress atyp ip = ((atyp ≡ 1) × (length ip ≡ 4)) ⊎ ((atyp ≡ 4) × (length ip ≡ 16))

-- The answer to the password, where the engine chose that method, in front of the rest.
abbrev pub password_reply : ℕ → Bytes → Bytes
password_reply m b = if m == 2 then 1 ∷ 0 ∷ b else b

-- The engine's side: the method that it chose, and what follows.
abbrev pub engine_stream : ℕ → Bytes → Bytes
engine_stream m b = 5 ∷ m ∷ password_reply m b

module _ (relay : Bytes → ℕ → Option (ℕ × Bytes × ℕ)) where
  rewrite_answer_lem :
      (reserved atyp : ℕ) (ip : Bytes) (high low : ℕ)
      → rewrite_answer 3 relay (answer_bytes reserved atyp ip high low) (length ip)
        ≡ ok (
            relayed 3 relay
              (answer_bytes reserved atyp ip high low)
              (relay (reachable ip) (high * 256 + low)))
  unfolding rewrite_answer at
  rewrite_answer_lem reserved atyp ip high low =
      let front = 5 ∷ 0 ∷ reserved ∷ atyp ∷ ip in
      let e : at (answer_bytes reserved atyp ip high low) (4 + length ip) ≡ ok high =
        subst (λ k. at (answer_bytes reserved atyp ip high low) k ≡ ok high) {x = length front + 0}
          (omega arith) (at-append front (high ∷ low ∷ []) 0) in
      let f : at (answer_bytes reserved atyp ip high low) (5 + length ip) ≡ ok low =
        subst (λ k. at (answer_bytes reserved atyp ip high low) k ≡ ok low) {x = length front + 1}
          (omega arith) (at-append front (high ∷ low ∷ []) 1) in
      rw (e, f, take_all ip (high ∷ low ∷ [])) refl

  answer_message_lem :
      (reserved atyp : ℕ) (ip : Bytes) (high low : ℕ)
      → atyp ≢ 3
      → answer_message 3 relay (answer_bytes reserved atyp ip high low) (length ip)
        ≡ ok (
            relayed 3 relay
              (answer_bytes reserved atyp ip high low)
              (relay (reachable ip) (high * 256 + low)))
  unfolding answer_message at
  answer_message_lem reserved atyp ip high low h =
      ground (arith, rewrite_answer_lem reserved atyp ip high low)

  answer_lem :
      (w : Rewriter) (reserved atyp : ℕ) (ip : Bytes) (high low : ℕ) (rest : Bytes) (atyp' : ℕ)
      (addr : Bytes) (port : ℕ)
      → w.buf ≡ answer_bytes reserved atyp ip high low ++ rest
      → atyp ≢ 3
      → relay (reachable ip) (high * 256 + low) ≡ some (atyp', addr, port)
      → answer 3 relay w (length ip)
        ≡ ok (record w {
          out = (w.out ++ 5 ∷ 0 ∷ 0 ∷ atyp' ∷ (addr ++ big_endian16 port)) ++ rest;
          buf = [];
          stage = passed;
        })
  unfolding answer relayed
  answer_lem w reserved atyp ip high low rest atyp' addr port e h r =
      let msg = answer_bytes reserved atyp ip high low in
      let whole : 4 + length ip + 2 ≡ length msg =
        omega (arith, length-append ip (high ∷ low ∷ [])) in
      let long : length msg ≤ length w.buf = omega (arith, ap length e, length-append msg rest) in
      rw
        (
          le→ltb (length w.buf) (4 + length ip + 2) (omega arith),
          whole,
          e,
          take_all msg rest,
          drop_all msg rest,
          answer_message_lem reserved atyp ip high low h,
          r,
        )
        refl

  address_length_lem :
      (b ip : Bytes) (atyp : ℕ) → IsAddress atyp ip → address_length b atyp ≡ ok (some (length ip))
  unfolding address_length
  address_length_lem b ip atyp (inl (e, f)) = rw (e, f) refl
  address_length_lem b ip atyp (inr (e, f)) = rw (e, f) refl

  module _ (atyp : ℕ) (ip : Bytes) (address : IsAddress atyp ip) (high low : ℕ) (atyp' : ℕ)
      (addr : Bytes) (port : ℕ)
      (open_ : relay (reachable ip) (high * 256 + low) ≡ some (atyp', addr, port)) where
    parse_request_lem :
        (w : Rewriter) (reserved : ℕ) (rest : Bytes)
        → w.buf ≡ answer_bytes reserved atyp ip high low ++ rest
        → parse_request 3 relay w
          ≡ ok (record w {
            out = (w.out ++ 5 ∷ 0 ∷ 0 ∷ atyp' ∷ (addr ++ big_endian16 port)) ++ rest;
            buf = [];
            stage = passed;
          })
    unfolding parse_request answer_or_through at
    parse_request_lem w reserved rest e =
        let known : atyp ≢ 3 = ground arith in
        let long : 5 ≤ length w.buf = omega (
          arith,
          ap length e,
          length-append ip (high ∷ low ∷ []),
          length-append (ip ++ high ∷ low ∷ []) rest,
        ) in
        rw
          (
            le→ltb (length w.buf) 5 long,
            ap (λ b. at b 3) e,
            address_length_lem w.buf ip atyp address,
          )
          (answer_lem w reserved atyp ip high low rest atyp' addr port e known open_)

    -- The relay's address in the answer, all else as it came.
    abbrev pub associated : ℕ → Bytes → Rewriter
    associated m rest = record {
      buf = [];
      out = engine_stream m (5 ∷ 0 ∷ 0 ∷ atyp' ∷ ((addr ++ big_endian16 port) ++ rest));
      stage = passed;
      method = m;
    }

    receive_associate :
        (m reserved : ℕ) (rest : Bytes)
        → m ≢ 255
        → receive 3 relay fresh_rewriter
            (engine_stream m (answer_bytes reserved atyp ip high low ++ rest))
          ≡ ok (associated m rest)
    unfolding receive parse parse_stage parse_method parse_password at
    receive_associate m reserved rest h =
        let b = answer_bytes reserved atyp ip high low ++ rest in
        ground (
          arith,
          parse_request_lem
              (record { buf = b; out = 5 ∷ m ∷ []; stage = request_answer; method = m }) reserved
              rest refl,
          parse_request_lem
              (record { buf = b; out = 5 ∷ m ∷ 1 ∷ 0 ∷ []; stage = request_answer; method = m })
              reserved rest refl,
        )

    -- The engine's answer to a UDP ASSOCIATE reaches the client with the address of the relay that
    -- was opened towards the engine's (towards 127.0.0.1 where the engine names no address); the
    -- messages before it and the bytes behind it pass unchanged, and nothing is held back. That is
    -- so for IPv4 and IPv6, with or without a password, and however the stream is cut into reads.
    pub receive_all_associate :
        (m reserved : ℕ) (rest p : Bytes) (ps : List Bytes)
        → m ≢ 255
        → flatten (p ∷ ps) ≡ engine_stream m (answer_bytes reserved atyp ip high low ++ rest)
        → receive_all 3 relay fresh_rewriter (p ∷ ps) ≡ ok (associated m rest)
    receive_all_associate m reserved rest p ps h e =
        let (w, f, g) = receive_all-flatten 3 relay fresh_rewriter p ps in
        f ∙ sym g ∙ ap (receive 3 relay fresh_rewriter) e ∙ receive_associate m reserved rest h
