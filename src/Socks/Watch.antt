-- ===== src/Socks/Watch.antt =====
-- core/socksudp.go: `socksCmdWatch`, which remembers the command of the client's request.
use mathlib.Core.List.{flatten}
use vair.Base.{
  ℕ, ◌<◌, ◌≡◌, sym, ap, ◌∙◌, Bool, true, false, inl, inr, List, [], ◌∷◌, ◌++◌, append_assoc,
  append-nil, arith, ltb, lt→ltb, if◌then◌else◌, length, length-append, Bytes, Outcome, ok, ◌>>=◌,
  Bool-cases, >>=-ok, >>=-assoc,
}
use vair.Spy.{SpyState, need_more, found, rejected}
use vair.Socks.Client.{socks5_client_cmd, socks5_client_cmd-Settles}

pub record CmdWatch : Type 0 where
  pub buf : Bytes
  pub done : Bool
  pub cmd : ℕ

unfoldable pub watch_limit : ℕ
watch_limit = 1024

unfoldable pub conclude : CmdWatch → Bytes → ℕ × SpyState → CmdWatch
conclude w buf (cmd, need_more) =
    if ltb (length buf) watch_limit
    then record w { buf = buf }
    else record w { buf = []; done = true }
conclude w buf (cmd, found) = record w { buf = []; done = true; cmd = cmd }
conclude w buf (cmd, rejected) = record w { buf = []; done = true }

unfoldable pub feed : CmdWatch → Bytes → Outcome CmdWatch
feed w p =
    if w.done then ok w else socks5_client_cmd (w.buf ++ p) >>= λ r. ok (conclude w (w.buf ++ p) r)

unfoldable pub feed_all : CmdWatch → List Bytes → Outcome CmdWatch
feed_all w [] = ok w
feed_all w (p ∷ ps) = feed w p >>= λ w'. feed_all w' ps

-- Two reads are one, as long as the first leaves the buffer under its limit.
feed-feed :
    (w : CmdWatch) (p q : Bytes)
    → length (w.buf ++ p) < watch_limit
    → (feed w p >>= λ w'. feed w' q) ≡ feed w (p ++ q)
unfolding feed conclude
feed-feed w p q h = elim (Bool-cases w.done) [
  | inl over ↦ rw over
  | inr open_ ↦
      let r = socks5_client_cmd-Settles (w.buf ++ p) q in
      ground (arith, r, append_assoc w.buf p q, lt→ltb _ _ h)
]

bounded_head :
    (b p : Bytes) (ps : List Bytes)
    → length (b ++ flatten (p ∷ ps)) < watch_limit
    → length (b ++ p) < watch_limit
unfolding flatten
bounded_head b p ps h =
    omega
      (arith, length-append b (p ++ flatten ps), length-append b p, length-append p (flatten ps))

-- However the client's bytes are cut into reads, the watch ends as if they had come in one read,
-- while they stay under its limit together.
pub feed_all-flatten :
    (w : CmdWatch) (p : Bytes) (ps : List Bytes)
    → length (w.buf ++ flatten (p ∷ ps)) < watch_limit
    → feed_all w (p ∷ ps) ≡ feed w (flatten (p ∷ ps))
unfolding feed_all flatten
feed_all-flatten w p [] h = rw append-nil (>>=-ok (feed w p))
feed_all-flatten w p (q ∷ ps) h =
    sym (>>=-assoc (feed w p) (λ w'. feed w' q) (λ w'. feed_all w' ps))
    ∙ ap (λ m. m >>= λ w'. feed_all w' ps) (feed-feed w p q (bounded_head w.buf p (q ∷ ps) h))
    ∙ feed_all-flatten w (p ++ q) ps (rw append_assoc h)
    ∙ ap (feed w) (append_assoc p q (flatten ps))

abbrev pub fresh_watch : CmdWatch
fresh_watch = record { buf = []; done = false; cmd = 0 }
