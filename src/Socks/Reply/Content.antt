-- ===== src/Socks/Reply/Content.antt =====
-- What `socksReplyRewriter` hands on.
use vair.Base.{
  ℕ, ◌+◌, ◌≤◌, ◌<◌, ◌≡◌, ◌≢◌, refl, subst, Bool, true, false, not, ◌||◌, List, [], ◌∷◌, ◌++◌,
  append_assoc, append-nil, arith, ltb, ◌==◌, if◌then◌else◌, length, take, drop, length-take,
  take-append-drop, Bytes, Outcome, ok, ◌>>=◌, at, at_in_range, Option, none, some, inl, inr,
  Returns, Bool-cases, Returns-at, Returns-if,
}
use vair.Socks.Reply.{
  password_answer, request_answer, passed, Rewriter, through, parse_method, parse_password,
  parse_request, answer_or_through, answer, answer_message, address_length,
}
use vair.Socks.Reply.Cuts.{next_stage, behind, receive_method}
use vair.Socks.Reply.Reads.{receive_all, receive_all-flatten, fresh_rewriter}
use mathlib.Core.List.{flatten}

-- What was handed on and what is held back, in order.
abbrev pub seen : Rewriter → Bytes
seen w = w.out ++ w.buf

module _ (cmd : ℕ) (relay : Bytes → ℕ → Option (ℕ × Bytes × ℕ)) where
  abbrev Keeps : Bytes → Outcome Rewriter → Type 0
  Keeps b m = (w : Rewriter) × (m ≡ ok w) × (seen w ≡ b)

  Keeps-at :
      (x : Bytes) (b : Bytes) (i : ℕ) {f : ℕ → Outcome Rewriter}
      → i < length b
      → ((c : ℕ) → Keeps x (f c))
      → Keeps x (at b i >>= f)
  Keeps-at x b i h k = let (c, e, _) = at_in_range b [] i h in rw e (k c)

  Keeps-if :
      (x : Bytes) (t : Bool) {m m' : Outcome Rewriter}
      → Keeps x m
      → Keeps x m'
      → Keeps x (if t then m else m')
  Keeps-if x true k k' = k
  Keeps-if x false k k' = k'

  Keeps-need :
      (w : Rewriter) (n : ℕ) {m : Outcome Rewriter}
      → (n ≤ length w.buf → Keeps (seen w) m)
      → Keeps (seen w) (if ltb (length w.buf) n then ok w else m)
  Keeps-need w n k = elim (Bool-cases (ltb (length w.buf) n)) [
    | inl e ↦ rw e (w, refl, refl)
    | inr e ↦ rw e (k (ground arith))
  ]

  Keeps-through : (w : Rewriter) → Keeps (seen w) (ok (through w))
  unfolding through
  Keeps-through w = (through w, refl, append-nil (w.out ++ w.buf))

  address_length-Returns : (b : Bytes) (atyp : ℕ) → 5 ≤ length b → Returns (address_length b atyp)
  unfolding address_length
  address_length-Returns b atyp h =
      Returns-if (atyp == 1) (some 4, refl)
        (Returns-if (atyp == 4) (some 16, refl)
          (Returns-if (atyp == 3) (Returns-at b 4 (omega arith) λ n. (some (1 + n), refl))
            (none, refl)))

  module _ (other : cmd ≢ 3) where
    answer_message_kept :
        (msg : Bytes) (alen : ℕ) → 4 ≤ length msg → answer_message cmd relay msg alen ≡ ok msg
    unfolding answer_message
    answer_message_kept msg alen h =
        let (a, e, _) = at_in_range msg [] 0 (omega arith) in
        let (b, f, _) = at_in_range msg [] 1 (omega arith) in
        let (c, g, _) = at_in_range msg [] 3 (omega arith) in rw (e, f, g) (ground arith)

    answer_kept : (w : Rewriter) (alen : ℕ) → Keeps (seen w) (answer cmd relay w alen)
    unfolding answer
    answer_kept w alen = Keeps-need w (4 + alen + 2) λ h.
        let total = 4 + alen + 2 in
        rw (answer_message_kept (take total w.buf) alen (omega (arith, length-take total w.buf h)))
          (
            record w {
              out = (w.out ++ take total w.buf) ++ drop total w.buf;
              buf = [];
              stage = passed;
            },
            refl,
            rw (append-nil, append_assoc, take-append-drop) refl,
          )

    answer_or_through_kept :
        (w : Rewriter) (a : Option ℕ) → Keeps (seen w) (answer_or_through cmd relay w a)
    unfolding answer_or_through
    answer_or_through_kept w none = Keeps-through w
    answer_or_through_kept w (some alen) = answer_kept w alen

    parse_request_kept : (w : Rewriter) → Keeps (seen w) (parse_request cmd relay w)
    unfolding parse_request
    parse_request_kept w = Keeps-need w 5 λ h. Keeps-at (seen w) w.buf 3 (omega arith) λ atyp.
        let (a, e) = address_length-Returns w.buf atyp h in rw e (answer_or_through_kept w a)

    -- Two bytes moved from the buffer to the output are still seen.
    moved : (w : Rewriter) → (w.out ++ take 2 w.buf) ++ drop 2 w.buf ≡ seen w
    moved w = rw (append_assoc, take-append-drop) refl

    parse_password_kept : (w : Rewriter) → Keeps (seen w) (parse_password cmd relay w)
    unfolding parse_password
    parse_password_kept w = Keeps-need w 2 λ h.
        Keeps-at (seen w) (take 2 w.buf) 1 (omega (arith, length-take 2 w.buf h)) λ status.
          Keeps-if (seen w) (not (status == 0)) (Keeps-through w) (
            subst (λ b. Keeps b (parse_request cmd relay (next_stage request_answer w))) (moved w)
              (parse_request_kept (next_stage request_answer w)))

    parse_method_kept : (w : Rewriter) → Keeps (seen w) (parse_method cmd relay w)
    unfolding parse_method
    parse_method_kept w = Keeps-need w 2 λ h.
        Keeps-at (seen w) (take 2 w.buf) 0 (omega (arith, length-take 2 w.buf h)) λ version.
          Keeps-at (seen w) (take 2 w.buf) 1 (omega (arith, length-take 2 w.buf h)) λ c.
            let v = record w { method = c } in
            Keeps-if (seen w) (not (version == 5) || c == 255) (Keeps-through w) (
              Keeps-if (seen w) (c == 2)
                (subst (λ b. Keeps b (parse_password cmd relay (next_stage password_answer v)))
                  (moved w) (parse_password_kept (next_stage password_answer v)))
                (subst (λ b. Keeps b (parse_request cmd relay (next_stage request_answer v)))
                  (moved w) (parse_request_kept (next_stage request_answer v))))

    -- Unless the client asked for a UDP relay, every byte of the engine's passes unchanged and in
    -- order, however it is cut into reads: what was handed on and what is held back until the
    -- message is complete are together exactly what was read.
    pub receive_all-seen :
        (p : Bytes) (ps : List Bytes)
        → (w : Rewriter) × (receive_all cmd relay fresh_rewriter (p ∷ ps) ≡ ok w)
          × (seen w ≡ flatten (p ∷ ps))
    receive_all-seen p ps =
        let b = flatten (p ∷ ps) in
        let (w, e, e') = receive_all-flatten cmd relay fresh_rewriter p ps in
        let (v, f, same) = parse_method_kept (behind fresh_rewriter b) in
        (w, e, ground (arith, f, e', same, receive_method cmd relay fresh_rewriter b refl))
