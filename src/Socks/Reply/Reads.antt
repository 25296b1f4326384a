-- ===== src/Socks/Reply/Reads.antt =====
-- The reads of a whole connection: any cut of the engine's bytes into reads does the same.
use mathlib.Core.List.{flatten}
use vair.Base.{
  ℕ, ◌≡◌, refl, sym, ap, ◌∙◌, List, [], ◌∷◌, ◌++◌, append_assoc, append-nil, Bytes, Outcome, ok,
  ◌>>=◌, Option, Agrees,
}
use vair.Socks.Reply.{
  Stage, method_choice, password_answer, request_answer, passed, Rewriter, receive, parse_method,
  parse_password, parse_request,
}
use vair.Socks.Reply.Cuts.{
  Splits, behind, receive_method, receive_password, receive_request, parse_method_cut,
  parse_password_cut, parse_request_cut,
}

-- As `wrap` makes it.
abbrev pub fresh_rewriter : Rewriter
fresh_rewriter = record { buf = []; out = []; stage = method_choice; method = 0 }

module _ (cmd : ℕ) (relay : Bytes → ℕ → Option (ℕ × Bytes × ℕ)) where
  -- From the cut of a stage's function to that of `receive`.
  receive_cut :
      (f : Rewriter → Outcome Rewriter) (w : Rewriter) (p q : Bytes)
      → ((x : Bytes) → receive cmd relay w x ≡ f (behind w x))
      → Splits cmd relay q (f (behind w p)) (f (behind (behind w p) q))
      → Splits cmd relay q (receive cmd relay w p) (receive cmd relay w (p ++ q))
  receive_cut f w p q r (w', e, e') = (
    w',
    r p ∙ e,
    e' ∙ sym (r (p ++ q) ∙ ap (λ b. f (record w { buf = b })) (sym (append_assoc w.buf p q))),
  )

  stage_cut :
      (s : Stage) (w : Rewriter) (p q : Bytes)
      → w.stage ≡ s
      → Splits cmd relay q (receive cmd relay w p) (receive cmd relay w (p ++ q))
  stage_cut method_choice w p q e =
      receive_cut (parse_method cmd relay) w p q (λ x. receive_method cmd relay w x e)
        (parse_method_cut cmd relay (behind w p) q e)
  stage_cut password_answer w p q e =
      receive_cut (parse_password cmd relay) w p q (λ x. receive_password cmd relay w x e)
        (parse_password_cut cmd relay (behind w p) q e)
  stage_cut request_answer w p q e =
      receive_cut (parse_request cmd relay) w p q (λ x. receive_request cmd relay w x e)
        (parse_request_cut cmd relay (behind w p) q e)
  stage_cut passed w p q e = (
    record w { out = w.out ++ p },
    receive_passed w p e,
    receive_passed _ q e
        ∙ ap (λ b. ok (record w { out = b })) (append_assoc w.out p q)
        ∙ sym (receive_passed w (p ++ q) e),
  )
    where
      receive_passed :
          (v : Rewriter) (x : Bytes)
          → v.stage ≡ passed
          → receive cmd relay v x ≡ ok (record v { out = v.out ++ x })
      receive_passed v x h = unfold receive in rw h

  unfoldable pub receive_all : Rewriter → List Bytes → Outcome Rewriter
  receive_all w [] = ok w
  receive_all w (p ∷ ps) = receive cmd relay w p >>= λ w'. receive_all w' ps

  -- However the engine's bytes are cut into reads, the rewriter never indexes out of range, and
  -- hands on the same bytes, holds the same bytes back and stands at the same stage as if they
  -- had come in one read. That is so from any state.
  pub receive_all-flatten :
      (w : Rewriter) (p : Bytes) (ps : List Bytes)
      → Agrees (receive_all w (p ∷ ps)) (receive cmd relay w (flatten (p ∷ ps)))
  unfolding receive_all flatten
  receive_all-flatten w p [] =
      let (w', e, _) = stage_cut w.stage w p [] refl in (w', rw e, rw append-nil e)
  receive_all-flatten w p (q ∷ ps) =
      let (w', e, e') = stage_cut w.stage w p q refl in
      let (v, f, f') = receive_all-flatten w (p ++ q) ps in
      (v, rw (e, e') f, rw (← append_assoc) f')
