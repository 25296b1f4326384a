-- ===== src/Liveness/Silence.antt =====
-- When a connection is suspected.
use vair.Base.{
  ℕ, ◌+◌, ◌≤◌, ◌<◌, ◌≡◌, ◌≢◌, inl, inr, refl, Bool, true, false, not, ◌||◌, List, [], ◌∷◌, Option,
  none, some, String, if◌then◌else◌, ltb, leb, arith, Bool-cases, lt→ltb, ◌⊎◌, subst,
}
use vair.Table.{◌===◌, ===_iff}
use vair.Liveness.{
  Watch, unknown, alive, suspect, suspect_after, overdue, first_sent, look, Counters, look_all,
}

-- No byte came back in any of the looks.
abbrev pub IsSilent : ℕ → List Counters → Type 0
IsSilent down [] = Unit {0}
IsSilent down (c ∷ cs) = (c.got ≡ down) × IsSilent down cs

-- None of the looks was before `t`.
abbrev pub NotBefore : ℕ → List Counters → Type 0
NotBefore t [] = Unit {0}
NotBefore t (c ∷ cs) = (t ≤ c.time) × NotBefore t cs

-- A watch of the session that has bytes unanswered since `t`.
abbrev pub Waits : Watch → String → ℕ → ℕ → Type 0
Waits w raw down t = (w.seen ≡ true) × (w.raw ≡ raw) × (w.down ≡ down) × (w.sent_at ≡ some t)

look-Waits :
    (w : Watch) (raw : String) (down t up now : ℕ)
    → Waits w raw down t
    → Waits (look w raw up down now).0 raw down t
unfolding look
look-Waits w raw down t up now (seen, session, same, sent) =
    let mine : not w.seen || not (w.raw === raw) ≡ false =
      ground (arith, seen, (===_iff w.raw raw).1 session) in
    let quiet : ltb w.down down ≡ false = ground (arith, same) in
    elim (Bool-cases (ltb w.up up)) [
      | inl more ↦ rw (mine, quiet, more, sent) (seen, session, refl, refl)
      | inr idle ↦ rw (mine, quiet, idle) (seen, session, refl, sent)
    ]

look_all-Waits :
    (w : Watch) (raw : String) (down t : ℕ) (cs : List Counters)
    → Waits w raw down t
    → IsSilent down cs
    → Waits (look_all w raw cs) raw down t
unfolding look_all
look_all-Waits w raw down t [] h silent = h
look_all-Waits w raw down t (c ∷ cs) h (same, silent) =
    look_all-Waits (look w raw c.sent c.got c.time).0 raw down t cs
      (rw same (look-Waits w raw down t c.sent c.time h)) silent

Waits-suspect :
    (w : Watch) (raw : String) (down t up now : ℕ)
    → Waits w raw down t
    → t + suspect_after ≤ now
    → (look w raw up down now).1 ≡ suspect
unfolding look
Waits-suspect w raw down t up now (seen, session, same, sent) late =
    let mine : not w.seen || not (w.raw === raw) ≡ false =
      ground (arith, seen, (===_iff w.raw raw).1 session) in
    let quiet : ltb w.down down ≡ false = ground (arith, same) in
    let old : leb (t + suspect_after) now ≡ true = ground (arith, late) in
    elim (Bool-cases (ltb w.up up)) [
      | inl more ↦ rw (mine, quiet, more, sent, old) refl
      | inr idle ↦ rw (mine, quiet, idle, sent, old) refl
    ]

first_look-Waits :
    (w : Watch) (raw : String) (up now : ℕ)
    → w.seen ≡ true
    → w.raw ≡ raw
    → w.sent_at ≡ none
    → w.up < up
    → Waits (look w raw up w.down now).0 raw w.down now
unfolding look
first_look-Waits w raw up now seen session none_sent more =
    let mine : not w.seen || not (w.raw === raw) ≡ false =
      ground (arith, seen, (===_iff w.raw raw).1 session) in
    let quiet : ltb w.down w.down ≡ false = ground arith in
    rw (mine, quiet, lt→ltb w.up up more, none_sent) (seen, session, refl, refl)

-- A server that has stopped answering is suspected: once bytes went out with nothing unanswered
-- before them, and no byte has come back in any look since, a look five seconds after that or later
-- says so, however many looks were in between and whether or not more bytes went out in them.
pub silence_suspect :
    (w : Watch) (raw : String) (up start : ℕ) (cs : List Counters) (last now : ℕ)
    → w.seen ≡ true
    → w.raw ≡ raw
    → w.sent_at ≡ none
    → w.up < up
    → IsSilent w.down cs
    → start + suspect_after ≤ now
    → (look (look_all (look w raw up w.down start).0 raw cs) raw last w.down now).1 ≡ suspect
silence_suspect w raw up start cs last now seen session none_sent more silent late =
    let first = first_look-Waits w raw up start seen session none_sent more in
    Waits-suspect _ raw w.down start last now
      (look_all-Waits (look w raw up w.down start).0 raw w.down start cs first silent) late

-- The unanswered bytes, if there are any, went out at `t` or later.
abbrev pub SentSince : Watch → ℕ → Type 0
SentSince w t = (w.sent_at ≡ none) ⊎ ((k : ℕ) × (w.sent_at ≡ some k) × (t ≤ k))

first_sent-since :
    (o : Option ℕ) (t now : ℕ)
    → (o ≡ none) ⊎ ((k : ℕ) × (o ≡ some k) × (t ≤ k))
    → t ≤ now
    → (k : ℕ) × (first_sent o now ≡ some k) × (t ≤ k)
first_sent-since o t now (inl e) h = rw e (now, refl, h)
first_sent-since o t now (inr (k, e, g)) h = rw e (k, refl, g)

look-SentSince :
    (w : Watch) (raw : String) (up down now t : ℕ)
    → SentSince w t
    → t ≤ now
    → SentSince (look w raw up down now).0 t
unfolding look
look-SentSince w raw up down now t h le = elim (Bool-cases (not w.seen || not (w.raw === raw))) [
  | inl new ↦ rw new (inl refl)
  | inr mine ↦ elim (Bool-cases (ltb w.down down)) [
    | inl back ↦ rw (mine, back) (inl refl)
    | inr quiet ↦ elim (Bool-cases (ltb w.up up)) [
      | inl more ↦ rw (mine, quiet, more) (inr (first_sent-since w.sent_at t now h le))
      | inr idle ↦ rw (mine, quiet, idle) h
    ]
  ]
]

look_all-SentSince :
    (w : Watch) (raw : String) (cs : List Counters) (t : ℕ)
    → SentSince w t
    → NotBefore t cs
    → SentSince (look_all w raw cs) t
unfolding look_all
look_all-SentSince w raw [] t h after = h
look_all-SentSince w raw (c ∷ cs) t h (le, after) =
    look_all-SentSince (look w raw c.sent c.got c.time).0 raw cs t
      (look-SentSince w raw c.sent c.got c.time t h le) after

overdue-since :
    (o : Option ℕ) (t now : ℕ)
    → (o ≡ none) ⊎ ((k : ℕ) × (o ≡ some k) × (t ≤ k))
    → overdue o now ≡ true
    → t + suspect_after ≤ now
overdue-since o t now (inl e) h = absurd (ground (arith, e, h))
overdue-since o t now (inr (k, e, g)) h =
    let late : leb (k + suspect_after) now ≡ true = subst (λ m. overdue m now ≡ true) e h in
    ground (arith, late, g)

unknown-suspect : unknown ≢ suspect
unknown-suspect e = cc

alive-suspect : alive ≢ suspect
alive-suspect e = cc

suspect_if : (b : Bool) → (if b then suspect else unknown) ≡ suspect → b ≡ true
suspect_if true e = refl
suspect_if false e = absurd (unknown-suspect e)

suspect-late :
    (w : Watch) (raw : String) (up down now t : ℕ)
    → SentSince w t
    → t ≤ now
    → (look w raw up down now).1 ≡ suspect
    → t + suspect_after ≤ now
unfolding look
suspect-late w raw up down now t h le = elim (Bool-cases (not w.seen || not (w.raw === raw))) [
  | inl new ↦ rw new (λ said. absurd (unknown-suspect said))
  | inr mine ↦ elim (Bool-cases (ltb w.down down)) [
    | inl back ↦ rw (mine, back) (λ said. absurd (alive-suspect said))
    | inr quiet ↦ elim (Bool-cases (ltb w.up up)) [
      | inl more ↦
          rw (mine, quiet, more)
            (λ said.
              overdue-since (first_sent w.sent_at now) t now
                (inr (first_sent-since w.sent_at t now h le))
                (suspect_if (overdue (first_sent w.sent_at now) now) said))
      | inr idle ↦
          rw (mine, quiet, idle)
            (λ said. overdue-since w.sent_at t now h (suspect_if (overdue w.sent_at now) said))
    ]
  ]
]

-- A connection is not suspected in haste: with nothing unanswered at a time (a new session, an
-- answer, a probe that came back), no look says so within five seconds of it, whatever the counters
-- showed at that look and at those before it.
pub suspect_patience :
    (w : Watch) (raw : String) (start : ℕ) (cs : List Counters) (up down now : ℕ)
    → w.sent_at ≡ none
    → NotBefore start cs
    → start ≤ now
    → (look (look_all w raw cs) raw up down now).1 ≡ suspect
    → start + suspect_after ≤ now
suspect_patience w raw start cs up down now none_sent after le said =
    suspect-late (look_all w raw cs) raw up down now start
      (look_all-SentSince w raw cs start (inl none_sent) after) le said
