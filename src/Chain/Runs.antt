-- ===== src/Chain/Runs.antt =====
-- What the runs of a chain are.
use vair.Base.{
  ◌≤◌, ◌≡◌, ◌≢◌, inl, inr, refl, sym, ap, ◌∙◌, Bool, true, false, List, [], ◌∷◌, ◌++◌, append_assoc,
  append-nil, Option, none, some, Option-cases, if◌then◌else◌, ltb, arith, Bool-cases, length,
  subst,
}
use vair.Chain.{
  Engine, xray, singbox, same_engine, Segment, SplitRefusal, unparseable, cannot_dial, too_short,
  changes_twice, segments, refused, add_hop, at_most_two, split_hops, split_chain,
}

same_engine_eq : (a b : Engine) → same_engine a b ≡ true → a ≡ b
same_engine_eq xray xray h = refl
same_engine_eq xray singbox h = absurd (ground (arith, h))
same_engine_eq singbox xray h = absurd (ground (arith, h))
same_engine_eq singbox singbox h = refl

-- The hops of a list of runs, in order.
abbrev pub hops : {Node : Type 0} → List (Segment Node) → List Node
hops [] = []
hops (s ∷ ss) = s.nodes ++ hops ss

hops-add_hop :
    {Node : Type 0} (ss : List (Segment Node)) (e : Engine) (n : Node)
    → hops (add_hop ss e n) ≡ hops ss ++ n ∷ []
unfolding add_hop
hops-add_hop [] e n = refl
hops-add_hop (s ∷ []) e n = elim (Bool-cases (same_engine s.engine e)) [
  | inl same ↦ rw (same, append_assoc s.nodes [] (n ∷ []), append_assoc s.nodes (n ∷ []) []) refl
  | inr other ↦ rw (other, append_assoc s.nodes [] (n ∷ [])) refl
]
hops-add_hop (s ∷ t ∷ ss) e n =
    ap (λ r. s.nodes ++ r) (hops-add_hop (t ∷ ss) e n)
    ∙ sym (append_assoc s.nodes (hops (t ∷ ss)) (n ∷ []))

append_some : {Node : Type 0} (ns : List Node) (n : Node) → ns ++ n ∷ [] ≢ []
append_some [] n h = cc
append_some (m ∷ ns) n h = cc

refused-segments :
    {Node : Type 0} (r : SplitRefusal Node) (segs : List (Segment Node)) → refused r ≢ segments segs
refused-segments r segs e = cc

at_most_two_eq :
    {Node : Type 0} (acc segs : List (Segment Node))
    → at_most_two acc ≡ segments segs
    → (acc ≡ segs) × (length acc ≤ 2)
unfolding at_most_two
at_most_two_eq acc segs h = elim (Bool-cases (ltb 2 (length acc))) [
  | inl many ↦ absurd (refused-segments changes_twice segs (rw many at h))
  | inr few ↦ (segments_eq acc segs (rw few at h), ground (arith, few))
]
  where
    segments_eq : {Node : Type 0} (a b : List (Segment Node)) → segments a ≡ segments b → a ≡ b
    segments_eq a b e = cc

abbrev pub Differs : Option Engine → Engine → Type 0
Differs none e = Unit {0}
Differs (some p) e = same_engine p e ≡ false

abbrev run_of : {Node : Type 0} → Engine → List Node → Segment Node
run_of e ns = record { engine = e; nodes = ns }

same_engine_refl : (e : Engine) → same_engine e e ≡ true
same_engine_refl xray = refl
same_engine_refl singbox = refl

add_hop_same :
    {Node : Type 0} (pre : List (Segment Node)) (e : Engine) (done : List Node) (n : Node)
    → add_hop (pre ++ run_of e done ∷ []) e n ≡ pre ++ run_of e (done ++ n ∷ []) ∷ []
unfolding add_hop
add_hop_same [] e done n = rw (same_engine_refl e) refl
add_hop_same (x ∷ []) e done n = rw (same_engine_refl e) refl
add_hop_same (x ∷ y ∷ pre) e done n = ap (λ r. x ∷ r) (add_hop_same (y ∷ pre) e done n)

add_hop_other :
    {Node : Type 0} (pre : List (Segment Node)) (s : Segment Node) (e : Engine) (n : Node)
    → same_engine s.engine e ≡ false
    → add_hop (pre ++ s ∷ []) e n ≡ (pre ++ s ∷ []) ++ run_of e (n ∷ []) ∷ []
unfolding add_hop
add_hop_other [] s e n h = rw h refl
add_hop_other (x ∷ []) s e n h = rw h refl
add_hop_other (x ∷ y ∷ pre) s e n h = ap (λ r. x ∷ r) (add_hop_other (y ∷ pre) s e n h)

module _ {Node : Type 0} (engine_for : Node → Option Engine) (is_nil : Node → Bool) where
  -- One engine carries the hops of a run.
  abbrev pub Carries : Engine → List Node → Type 0
  Carries e [] = Unit {0}
  Carries e (n ∷ ns) = (engine_for n ≡ some e) × Carries e ns

  -- Runs with hops, each of one engine and next to runs of the other engine.
  abbrev pub AreRuns : Option Engine → List (Segment Node) → Type 0
  AreRuns prev [] = Unit {0}
  AreRuns prev (s ∷ ss) =
      (s.nodes ≢ []) × Carries s.engine s.nodes × Differs prev s.engine × AreRuns (some s.engine) ss

  Carries-append :
      (e : Engine) (ns : List Node) (n : Node)
      → Carries e ns
      → engine_for n ≡ some e
      → Carries e (ns ++ n ∷ [])
  Carries-append e [] n c h = (h, tt)
  Carries-append e (m ∷ ns) n (a, c) h = (a, Carries-append e ns n c h)

  add_hop-AreRuns :
      (prev : Option Engine) (s : Segment Node) (ss : List (Segment Node)) (e : Engine) (n : Node)
      → AreRuns prev (s ∷ ss)
      → engine_for n ≡ some e
      → AreRuns prev (add_hop (s ∷ ss) e n)
  unfolding add_hop
  add_hop-AreRuns prev s [] e n (some_hops, c, d, _) h =
      elim (Bool-cases (same_engine s.engine e)) [
        | inl same ↦
            let own : engine_for n ≡ some s.engine =
              h ∙ ap some (sym (same_engine_eq s.engine e same)) in
            rw same (append_some s.nodes n, Carries-append s.engine s.nodes n c own, d, tt)
        | inr other ↦ rw other (some_hops, c, d, ((λ q. cc), (h, tt), other, tt))
      ]
  add_hop-AreRuns prev s (t ∷ ss) e n (some_hops, c, d, r) h =
      (some_hops, c, d, add_hop-AreRuns (some s.engine) t ss e n r h)

  started-AreRuns :
      (ss : List (Segment Node)) (e : Engine) (n : Node)
      → AreRuns none ss
      → engine_for n ≡ some e
      → AreRuns none (add_hop ss e n)
  started-AreRuns [] e n r h = unfold add_hop in ((λ q. cc), (h, tt), tt, tt)
  started-AreRuns (s ∷ ss) e n r h = add_hop-AreRuns none s ss e n r h

  -- The runs that a split yields.
  abbrev Splits : List Node → List (Segment Node) → Type 0
  Splits ns segs = (hops segs ≡ ns) × AreRuns none segs × (length segs ≤ 2)

  split_hops-some :
      (acc : List (Segment Node)) (n : Node) (ns : List Node) (e : Engine)
      → engine_for n ≡ some e
      → split_hops engine_for is_nil acc (n ∷ ns)
        ≡ split_hops engine_for is_nil (add_hop acc e n) ns
  unfolding split_hops
  split_hops-some acc n ns e h = rw (h, split_hops) refl

  split_hops-none :
      (acc : List (Segment Node)) (n : Node) (ns : List Node)
      → engine_for n ≡ none
      → split_hops engine_for is_nil acc (n ∷ ns)
        ≡ refused (if is_nil n then unparseable else cannot_dial n)
  unfolding split_hops
  split_hops-none acc n ns h = rw (h, split_hops) refl

  split_hops-Splits :
      (acc segs : List (Segment Node)) (ns : List Node)
      → AreRuns none acc
      → split_hops engine_for is_nil acc ns ≡ segments segs
      → Splits (hops acc ++ ns) segs
  split_hops-Splits acc segs [] r h =
      let (same, few) = at_most_two_eq acc segs (unfold split_hops in h) in
      (
        ap hops (sym same) ∙ sym (append-nil (hops acc)),
        subst (AreRuns none) same r,
        subst (λ l. length l ≤ 2) same few,
      )
  split_hops-Splits acc segs (n ∷ ns) r h = elim (Option-cases (engine_for n)) [
    | inl out ↦ absurd (
        refused-segments (if is_nil n then unparseable else cannot_dial n) segs
          (sym (split_hops-none acc n ns out) ∙ h))
    | inr (e, found) ↦
        let rest =
          split_hops-Splits (add_hop acc e n) segs ns (started-AreRuns acc e n r found)
            (sym (split_hops-some acc n ns e found) ∙ h) in
        subst (λ l. Splits l segs)
          (ap (λ l. l ++ ns) (hops-add_hop acc e n) ∙ append_assoc (hops acc) (n ∷ []) ns) rest
  ]

  -- A chain that is split is split faithfully: the runs have all its hops in their order, each run
  -- has hops and one engine that carries them, runs that are next to each other have different
  -- engines, and there are two runs at most; and the chain has two hops at least.
  pub split_chain-AreRuns :
      (ns : List Node) (segs : List (Segment Node))
      → split_chain engine_for is_nil ns ≡ segments segs
      → (hops segs ≡ ns) × AreRuns none segs × (length segs ≤ 2) × (2 ≤ length ns)
  unfolding split_chain
  split_chain-AreRuns ns segs h = elim (Bool-cases (ltb (length ns) 2)) [
    | inl short ↦ absurd (refused-segments too_short segs (rw short at h))
    | inr enough ↦
        let (all, runs, few) = split_hops-Splits [] segs ns tt (rw enough at h) in
        (all, runs, few, ground (arith, enough))
  ]

  -- A run goes on.
  split_hops_run :
      (pre : List (Segment Node)) (e : Engine) (done ns rest : List Node)
      → Carries e ns
      → split_hops engine_for is_nil (pre ++ run_of e done ∷ []) (ns ++ rest)
        ≡ split_hops engine_for is_nil (pre ++ run_of e (done ++ ns) ∷ []) rest
  split_hops_run pre e done [] rest c =
      ap (λ d. split_hops engine_for is_nil (pre ++ run_of e d ∷ []) rest) (sym (append-nil done))
  split_hops_run pre e done (n ∷ ns) rest (h, c) =
      split_hops-some (pre ++ run_of e done ∷ []) n (ns ++ rest) e h
      ∙ ap (λ l. split_hops engine_for is_nil l (ns ++ rest)) (add_hop_same pre e done n)
      ∙ split_hops_run pre e (done ++ n ∷ []) ns rest c
      ∙ ap (λ d. split_hops engine_for is_nil (pre ++ run_of e d ∷ []) rest)
          (append_assoc done (n ∷ []) ns)

  abbrev AllRuns : List (Segment Node) → Type 0
  AllRuns ss =
      (pre : List (Segment Node)) (s : Segment Node)
      → AreRuns (some s.engine) ss
      → split_hops engine_for is_nil (pre ++ s ∷ []) (hops ss) ≡ at_most_two (pre ++ s ∷ ss)

  next_run :
      (pre : List (Segment Node)) (s : Segment Node) (e : Engine) (nodes : List Node)
      (ss : List (Segment Node))
      → AllRuns ss
      → AreRuns (some s.engine) (run_of e nodes ∷ ss)
      → split_hops engine_for is_nil (pre ++ s ∷ []) (nodes ++ hops ss)
        ≡ at_most_two (pre ++ s ∷ run_of e nodes ∷ ss)
  next_run pre s e [] ss ih (some_hops, _, _, _) = absurd (some_hops refl)
  next_run pre s e (n ∷ ns) ss ih (_, (h, c), other, runs) =
      split_hops-some (pre ++ s ∷ []) n (ns ++ hops ss) e h
      ∙ ap (λ l. split_hops engine_for is_nil l (ns ++ hops ss)) (add_hop_other pre s e n other)
      ∙ split_hops_run (pre ++ s ∷ []) e (n ∷ []) ns (hops ss) c
      ∙ ih (pre ++ s ∷ []) (run_of e (n ∷ ns)) runs
      ∙ ap at_most_two (append_assoc pre (s ∷ []) (run_of e (n ∷ ns) ∷ ss))

  all_runs : (ss : List (Segment Node)) → AllRuns ss
  all_runs [] pre s r = unfold split_hops in refl
  all_runs (t ∷ ss) pre s r = next_run pre s t.engine t.nodes ss (all_runs ss) r

  first_run :
      (e : Engine) (nodes : List Node) (ss : List (Segment Node))
      → AreRuns none (run_of e nodes ∷ ss)
      → split_hops engine_for is_nil [] (nodes ++ hops ss) ≡ at_most_two (run_of e nodes ∷ ss)
  first_run e [] ss (some_hops, _, _, _) = absurd (some_hops refl)
  first_run e (n ∷ ns) ss (_, (h, c), _, runs) =
      let started : add_hop [] e n ≡ run_of e (n ∷ []) ∷ [] = unfold add_hop in refl in
      split_hops-some [] n (ns ++ hops ss) e h
      ∙ ap (λ l. split_hops engine_for is_nil l (ns ++ hops ss)) started
      ∙ split_hops_run [] e (n ∷ []) ns (hops ss) c
      ∙ all_runs ss [] (run_of e (n ∷ ns)) runs

  -- Every chain that two engines can carry is split: the hops of one run, or of two runs of
  -- different engines, are split into just those runs, if there are two hops at least.
  pub split_chain-hops :
      (s : Segment Node) (ss : List (Segment Node))
      → AreRuns none (s ∷ ss)
      → length ss ≤ 1
      → 2 ≤ length (hops (s ∷ ss))
      → split_chain engine_for is_nil (hops (s ∷ ss)) ≡ segments (s ∷ ss)
  unfolding split_chain at_most_two
  split_chain-hops s ss runs few two =
      let enough : ltb (length (hops (s ∷ ss))) 2 ≡ false = ground (arith, two) in
      let fits : ltb 2 (length (s ∷ ss)) ≡ false = ground (arith, few) in
      rw enough (first_run s.engine s.nodes ss runs ∙ rw fits refl)
