-- ===== src/Xray/Chain/Whole.antt =====
-- The configuration of an xray chain and what a connection that is routed to "proxy" goes through.
use mathlib.Core.Option
use vair.Base.{
  ℕ, suc, ◌+◌, ◌≡◌, refl, sym, ap, ◌∙◌, Bool, List, [], ◌∷◌, ◌++◌, map, none, some, codes, same,
  if◌then◌else◌, Bool-cases, inl, inr, arith, length, append_assoc, cons_some, cons_some_parts,
  subst,
}
use vair.Base.Text.{reverse_onto}
use vair.Base.Json.{Json, Fields, text_of, get}
use vair.Hops.{
  tag_for, has_tag, find_tag, named_path, IsInjective, find_tag-miss, find_tag-skip, dial_path-all,
  hops_from, find_tag-hops_other, tag_for_last,
}
use vair.Node.{Env, Node}
use vair.Xray.{xray_outbound_for_node}
use vair.Xray.Chain.{
  Access, direct_outbound, block_outbound, dialer, dial_through, fragment_outbound, finish_xray,
  xray_hop, build_xray_chain_config,
}
use vair.Xray.Chain.Wiring.{
  Dest, dest, through, outbounds_of, raw_outbounds, dialer-dial_through, dest-dial_through,
  has_tag-dial_through, dialer-put_tag, has_tag-xray_hop, dest-xray_hop, xray_hops_eq,
}
use vair.Xray.Chain.Path.{
  outbounds_plain, outbounds_fragmented, outs, chain_Linked, Starts-direct, Starts-fragmented,
  tag_for-fragment,
}

length-raw_outbounds :
    (env : Env) (ns : List Node) (obs : List Fields)
    → raw_outbounds env ns ≡ some obs
    → length obs ≡ length ns
unfolding raw_outbounds
length-raw_outbounds env [] [] h = refl
length-raw_outbounds env [] (ob ∷ obs) h = absurd (ground (arith, h))
length-raw_outbounds env (n ∷ ns) obs h =
    let (ob, rest, one, more, equal) =
      cons_some_parts (xray_outbound_for_node env n) (raw_outbounds env ns) obs h in
    rw equal (ap (λ (k : ℕ). suc k) (length-raw_outbounds env ns rest more))

pub raw_outbounds-cons :
    (env : Env) (n : Node) (ns : List Node) (ob : Fields) (obs : List Fields)
    → xray_outbound_for_node env n ≡ some ob
    → raw_outbounds env ns ≡ some obs
    → raw_outbounds env (n ∷ ns) ≡ some (ob ∷ obs)
unfolding raw_outbounds
raw_outbounds-cons env n ns ob obs one more =
    ap (λ o. cons_some o (raw_outbounds env ns)) one ∙ ap (cons_some (some ob)) more

-- What lies before the first hop.
abbrev pub before_entry : Env → List Dest
before_entry env = if env.fragment then dest (fragment_outbound env) ∷ [] else []

module _ (env : Env) (routing : Json) (a : Access) (injective : IsInjective env.show) (ob0 : Fields)
    (obs : List Fields) (free : dialer ob0 ≡ none) where
  abbrev last : ℕ
  last = length obs

  abbrev first : Fields
  first = xray_hop env last 0 ob0

  abbrev rest : List Fields
  rest = hops_from (xray_hop env last) 1 obs

  first_free : dialer first ≡ none
  unfolding xray_hop
  first_free = dialer-put_tag _ ob0 ∙ free

  abbrev Passes : List Fields → List Dest → Type 0
  Passes found start =
      named_path dest through found (length (ob0 ∷ obs) + 1) (codes "proxy")
      ≡ some (map dest (reverse_onto (ob0 ∷ obs) []) ++ start)

  Passes-plain : Passes (first ∷ rest ++ direct_outbound env ∷ block_outbound ∷ []) []
  Passes-plain =
      let others = direct_outbound env ∷ block_outbound ∷ [] in
      let tagged = λ (t : List ℕ). has_tag-xray_hop env last t 0 ob0 in
      rw (← tag_for_last env.show last) (
        dial_path-all through (outs env injective last ob0 obs first others tagged)
          (tag_for env.show last) dest (xray_hop env last) (ob0 ∷ obs) 1 []
          (chain_Linked env injective last ob0 obs first others tagged)
          (Starts-direct env injective last ob0 obs first others tagged (ap text_of first_free)
            (dest-xray_hop env last 0 ob0))
          ob0 obs refl)

  abbrev cut_entry : Fields
  cut_entry = dial_through (codes "fragment") first

  abbrev with_fragment : List Fields
  with_fragment = direct_outbound env ∷ block_outbound ∷ fragment_outbound env ∷ []

  cut_entry_tag : (t : List ℕ) → has_tag t cut_entry ≡ same (tag_for env.show last 0) t
  cut_entry_tag t =
      has_tag-dial_through t (codes "fragment") first ∙ has_tag-xray_hop env last t 0 ob0

  found_fragment :
      find_tag (codes "fragment") (cut_entry ∷ rest ++ with_fragment) ≡ some (fragment_outbound env)
  unfolding find_tag
  found_fragment =
      find_tag-miss (codes "fragment") cut_entry (rest ++ with_fragment)
        (cut_entry_tag (codes "fragment") ∙ tag_for-fragment env.show last 0)
      ∙ find_tag-skip (codes "fragment") rest with_fragment (
          find_tag-hops_other env.show injective last (xray_hop env last)
            (has_tag-xray_hop env last) (codes "fragment") 1 obs (tag_for-fragment env.show last))

  fragment_free : through (fragment_outbound env) ≡ none
  unfolding dialer get
  fragment_free = refl

  Passes-fragmented : Passes (cut_entry ∷ rest ++ with_fragment) (dest (fragment_outbound env) ∷ [])
  Passes-fragmented = rw (← tag_for_last env.show last) (
      dial_path-all through (outs env injective last ob0 obs cut_entry with_fragment cut_entry_tag)
        (tag_for env.show last) dest (xray_hop env last) (ob0 ∷ obs) 1
        (dest (fragment_outbound env) ∷ [])
        (chain_Linked env injective last ob0 obs cut_entry with_fragment cut_entry_tag)
        (Starts-fragmented env injective last ob0 obs cut_entry with_fragment cut_entry_tag
          (codes "fragment") (fragment_outbound env)
          (ap text_of (dialer-dial_through (codes "fragment") first)) found_fragment fragment_free
          (dest-dial_through (codes "fragment") first ∙ dest-xray_hop env last 0 ob0))
        ob0 obs refl)

  Passes-finished :
      Passes (outbounds_of (finish_xray env routing a (first ∷ rest))) (before_entry env)
  Passes-finished = elim (Bool-cases env.fragment) [
    | inl on ↦
        let start : dest (fragment_outbound env) ∷ [] ≡ before_entry env =
          ap (λ (b : Bool). if b then dest (fragment_outbound env) ∷ [] else []) (sym on) in
        let shape =
          outbounds_fragmented env routing a first rest on first_free
          ∙ ap (λ r. cut_entry ∷ r)
              (append_assoc rest (direct_outbound env ∷ block_outbound ∷ [])
                (fragment_outbound env ∷ [])) in
        subst (λ o. Passes o (before_entry env)) (sym shape)
          (subst (Passes (cut_entry ∷ rest ++ with_fragment)) start Passes-fragmented)
    | inr off ↦
        let start : [] ≡ before_entry env =
          ap (λ (b : Bool). if b then dest (fragment_outbound env) ∷ [] else []) (sym off) in
        subst (λ o. Passes o (before_entry env))
          (sym (outbounds_plain env routing a (first ∷ rest) off))
          (subst (Passes (first ∷ rest ++ direct_outbound env ∷ block_outbound ∷ [])) start
            Passes-plain)
  ]

pub built :
    (env : Env) (routing : Json) (a : Access) (n m : Node) (ns : List Node) (ob : Fields)
    (obs : List Fields)
    → xray_outbound_for_node env n ≡ some ob
    → raw_outbounds env (m ∷ ns) ≡ some obs
    → build_xray_chain_config env routing a (n ∷ m ∷ ns)
      ≡ some (finish_xray env routing a (hops_from (xray_hop env (length obs)) 0 (ob ∷ obs)))
unfolding build_xray_chain_config
built env routing a n m ns ob obs one more =
    let all = raw_outbounds-cons env n (m ∷ ns) ob obs one more in
    let count : length obs ≡ suc (length ns) = length-raw_outbounds env (m ∷ ns) obs more in
    ap (Option.map (finish_xray env routing a))
      (xray_hops_eq env (suc (length ns)) 0 (n ∷ m ∷ ns) (ob ∷ obs) all)
    ∙ ap (λ last. some (finish_xray env routing a (hops_from (xray_hop env last) 0 (ob ∷ obs))))
        (sym count)

-- A chain of two configurations or more that xray can all dial gets a configuration. In it, what is
-- routed to "proxy" goes out of the last one's server, which is reached through the one before it,
-- and so on down to the first one, which is reached directly, or with the fragment setting on by
-- way of the fragment outbound, which dials directly: the way ends there. Each is dialled with its
-- own protocol and settings, transport and encryption. The tags of the hops are numbers that are
-- printed apart, and the first configuration, if it was given as JSON, names no dialer of its own.
pub build_xray_chain_config-path :
    (env : Env) (routing : Json) (a : Access)
    → IsInjective env.show
    → (n m : Node) (ns : List Node) (ob : Fields) (obs : List Fields)
    → xray_outbound_for_node env n ≡ some ob
    → raw_outbounds env (m ∷ ns) ≡ some obs
    → dialer ob ≡ none
    → (cfg : Fields) × (build_xray_chain_config env routing a (n ∷ m ∷ ns) ≡ some cfg)
      × (named_path dest through (outbounds_of cfg) (length (ob ∷ obs) + 1) (codes "proxy")
          ≡ some (map dest (reverse_onto (ob ∷ obs) []) ++ before_entry env))
build_xray_chain_config-path env routing a injective n m ns ob obs one more free = (
  finish_xray env routing a (hops_from (xray_hop env (length obs)) 0 (ob ∷ obs)),
  built env routing a n m ns ob obs one more,
  Passes-finished env routing a injective ob obs free,
)
