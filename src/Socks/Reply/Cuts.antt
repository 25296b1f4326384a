-- ===== src/Socks/Reply/Cuts.antt =====
-- How the engine's answers are cut into reads does not matter to `socksReplyRewriter`.
use vair.Base.{
  ℕ, ◌+◌, ◌≤◌, ◌≡◌, refl, sym, ◌∙◌, Bool, true, false, not, ◌&&◌, ◌||◌, [], ◌++◌, append_assoc,
  arith, ltb, le→ltb, ◌==◌, if◌then◌else◌, length, take, drop, length-append, length-take,
  take-append, drop-append, Bytes, Outcome, ok, ◌>>=◌, at_in_range, Option, none, some, inl, inr,
  Returns, Agrees, Returns-at, Returns-if, Agrees-at, Agrees-if, Bool-cases,
}
use vair.Socks.Reply.{
  Stage, method_choice, password_answer, request_answer, passed, Rewriter, through, receive, parse,
  parse_stage, parse_method, parse_password, parse_request, answer_or_through, answer,
  answer_message, rewrite_answer, address_length,
}

abbrev pub behind : Rewriter → Bytes → Rewriter
behind w q = record w { buf = w.buf ++ q }

-- A message of two bytes is read and passed on, and the rest stays in the buffer.
abbrev pub next_stage : Stage → Rewriter → Rewriter
next_stage s w = record w { stage = s; out = w.out ++ take 2 w.buf; buf = drop 2 w.buf }

module _ (cmd : ℕ) (relay : Bytes → ℕ → Option (ℕ × Bytes × ℕ)) where
  -- `now` returns, and the rest `q` received after it gives `later`.
  abbrev pub Splits : Bytes → Outcome Rewriter → Outcome Rewriter → Type 0
  Splits q now later = (w : Rewriter) × (now ≡ ok w) × (receive cmd relay w q ≡ later)

  Splits-need :
      (w : Rewriter) (q : Bytes) (n : ℕ) (x : Outcome Rewriter) {m m' : Outcome Rewriter}
      → receive cmd relay w q ≡ (if ltb (length (w.buf ++ q)) n then x else m')
      → (n ≤ length w.buf → Splits q m m')
      → Splits q
          (if ltb (length w.buf) n then ok w else m)
          (if ltb (length (w.buf ++ q)) n then x else m')
  Splits-need w q n x short long = elim (Bool-cases (ltb (length w.buf) n)) [
    | inl e ↦ rw e (w, refl, short)
    | inr e ↦
        rw (e, le→ltb (length (w.buf ++ q)) n (ground (arith, length-append w.buf q)))
          (long (ground arith))
  ]

  Splits-if :
      (q : Bytes) (t : Bool) {x y x' y' : Outcome Rewriter}
      → Splits q x x'
      → Splits q y y'
      → Splits q (if t then x else y) (if t then x' else y')
  Splits-if q true s s' = s
  Splits-if q false s s' = s'

  Splits-bind {ℓ} :
      (q : Bytes) {A : Type ℓ} {m m' : Outcome A} {f g : A → Outcome Rewriter}
      → (a : A) × (m ≡ ok a) × (m' ≡ ok a)
      → ((a : A) → Splits q (f a) (g a))
      → Splits q (m >>= f) (m' >>= g)
  Splits-bind q (a, e, e') s = rw (e, e') (s a)

  Splits-through :
      (w : Rewriter) (q : Bytes) → Splits q (ok (through w)) (ok (through (behind w q)))
  unfolding through receive
  Splits-through w q = (through w, refl, rw append_assoc)

  address_length-append :
      (b q : Bytes) (atyp : ℕ)
      → 5 ≤ length b
      → Agrees (address_length b atyp) (address_length (b ++ q) atyp)
  unfolding address_length
  address_length-append b q atyp h =
      Agrees-if (atyp == 1) (some 4, refl, refl)
        (Agrees-if (atyp == 4) (some 16, refl, refl)
          (Agrees-if (atyp == 3) (Agrees-at b q 4 (omega arith) λ n. (some (1 + n), refl, refl))
            (none, refl, refl)))

  rewrite_answer-Returns :
      (msg : Bytes) (alen : ℕ)
      → length msg ≡ 4 + alen + 2
      → Returns (rewrite_answer cmd relay msg alen)
  unfolding rewrite_answer
  rewrite_answer-Returns msg alen h =
      Returns-at msg (4 + alen) (omega arith)
        λ high. Returns-at msg (5 + alen) (omega arith) λ low. (_, refl)

  answer_message-Returns :
      (msg : Bytes) (alen : ℕ)
      → length msg ≡ 4 + alen + 2
      → Returns (answer_message cmd relay msg alen)
  unfolding answer_message
  answer_message-Returns msg alen h = Returns-at msg 0 (omega arith) λ version.
      Returns-at msg 1 (omega arith) λ status. Returns-at msg 3 (omega arith) λ atyp.
        Returns-if (version == 5 && status == 0 && cmd == 3 && not (atyp == 3))
          (rewrite_answer-Returns msg alen h) (msg, refl)

  pub receive_request :
      (w : Rewriter) (q : Bytes)
      → w.stage ≡ request_answer
      → receive cmd relay w q ≡ parse_request cmd relay (behind w q)
  unfolding receive parse parse_stage
  receive_request w q e = rw e

  pub receive_password :
      (w : Rewriter) (q : Bytes)
      → w.stage ≡ password_answer
      → receive cmd relay w q ≡ parse_password cmd relay (behind w q)
  unfolding receive parse parse_stage
  receive_password w q e = rw e

  pub receive_method :
      (w : Rewriter) (q : Bytes)
      → w.stage ≡ method_choice
      → receive cmd relay w q ≡ parse_method cmd relay (behind w q)
  unfolding receive parse parse_stage
  receive_method w q e = rw e

  answer_long :
      (w : Rewriter) (q : Bytes) (alen : ℕ)
      → 4 + alen + 2 ≤ length w.buf
      → Splits q (answer cmd relay w alen) (answer cmd relay (behind w q) alen)
  unfolding answer receive
  answer_long w q alen h =
      let total = 4 + alen + 2 in
      let (msg, e) = answer_message-Returns (take total w.buf) alen (length-take total w.buf h) in
      rw
        (
          le→ltb (length w.buf) total h,
          le→ltb (length (w.buf ++ q)) total (omega (arith, length-append w.buf q)),
          take-append total w.buf q h,
          drop-append total w.buf q h,
          e,
        )
        (
          record w { out = (w.out ++ msg) ++ drop total w.buf; buf = []; stage = passed },
          refl,
          rw (append_assoc (w.out ++ msg) (drop total w.buf) q),
        )

  answer_cut :
      (w : Rewriter) (q : Bytes) (a : Option ℕ)
      → w.stage ≡ request_answer
      → parse_request cmd relay (behind w q) ≡ answer_or_through cmd relay (behind w q) a
      → Splits q (answer_or_through cmd relay w a) (answer_or_through cmd relay (behind w q) a)
  unfolding answer_or_through
  answer_cut w q none e again = Splits-through w q
  answer_cut w q (some alen) e again = elim (Bool-cases (ltb (length w.buf) (4 + alen + 2))) [
    | inl short ↦ (w, unfold answer in rw short, receive_request w q e ∙ again)
    | inr long ↦ answer_long w q alen (ground arith)
  ]

  parse_request_long :
      (w : Rewriter) (q : Bytes)
      → 5 ≤ length w.buf
      → (a : Option ℕ) × (parse_request cmd relay w ≡ answer_or_through cmd relay w a)
        × (parse_request cmd relay (behind w q) ≡ answer_or_through cmd relay (behind w q) a)
  unfolding parse_request
  parse_request_long w q h =
      let (c, e, e') = at_in_range w.buf q 3 (omega arith) in
      let (a, f, f') = address_length-append w.buf q c h in
      let longer : 5 ≤ length (w.buf ++ q) = omega (arith, length-append w.buf q) in
      (a, rw (le→ltb _ _ h, e, f) refl, rw (le→ltb _ _ longer, e', f') refl)

  pub parse_request_cut :
      (w : Rewriter) (q : Bytes)
      → w.stage ≡ request_answer
      → Splits q (parse_request cmd relay w) (parse_request cmd relay (behind w q))
  parse_request_cut w q e = elim (Bool-cases (ltb (length w.buf) 5)) [
    | inl short ↦ (w, unfold parse_request in rw short, receive_request w q e)
    | inr long ↦
        let (a, f, f') = parse_request_long w q (ground arith) in
        let (w', g, g') = answer_cut w q a e f' in (w', f ∙ g, g' ∙ sym f')
  ]

  pub parse_password_cut :
      (w : Rewriter) (q : Bytes)
      → w.stage ≡ password_answer
      → Splits q (parse_password cmd relay w) (parse_password cmd relay (behind w q))
  unfolding parse_password
  parse_password_cut w q e = elim (Bool-cases (ltb (length w.buf) 2)) [
    | inl short ↦ (w, rw short, receive_password w q e)
    | inr long ↦
        let h : 2 ≤ length w.buf = ground arith in
        let h' : 2 ≤ length (w.buf ++ q) = omega (arith, length-append w.buf q) in
        let (c, f, _) = at_in_range (take 2 w.buf) [] 1 (omega (arith, length-take 2 w.buf h)) in
        rw
          (
            le→ltb (length w.buf) 2 h,
            le→ltb (length (w.buf ++ q)) 2 h',
            take-append 2 w.buf q h,
            drop-append 2 w.buf q h,
            f,
          )
          (Splits-if q (not (c == 0)) (Splits-through w q)
            (parse_request_cut (next_stage request_answer w) q refl))
  ]

  pub parse_method_cut :
      (w : Rewriter) (q : Bytes)
      → w.stage ≡ method_choice
      → Splits q (parse_method cmd relay w) (parse_method cmd relay (behind w q))
  unfolding parse_method
  parse_method_cut w q e = elim (Bool-cases (ltb (length w.buf) 2)) [
    | inl short ↦ (w, rw short, receive_method w q e)
    | inr long ↦
        let h : 2 ≤ length w.buf = ground arith in
        let h' : 2 ≤ length (w.buf ++ q) = omega (arith, length-append w.buf q) in
        let two : 2 ≤ length (take 2 w.buf) = omega (arith, length-take 2 w.buf h) in
        let (v, f, _) = at_in_range (take 2 w.buf) [] 0 (omega arith) in
        let (c, g, _) = at_in_range (take 2 w.buf) [] 1 (omega arith) in
        rw
          (
            le→ltb (length w.buf) 2 h,
            le→ltb (length (w.buf ++ q)) 2 h',
            take-append 2 w.buf q h,
            drop-append 2 w.buf q h,
            f,
            g,
          )
          (Splits-if q (not (v == 5) || c == 255) (Splits-through w q) (
            Splits-if q (c == 2)
              (parse_password_cut (next_stage password_answer (record w { method = c })) q refl)
              (parse_request_cut (next_stage request_answer (record w { method = c })) q refl)))
  ]
