-- ===== src/Xray/Chain/Path.antt =====
-- The way of a connection through an xray chain.
use mathlib.Core.Option
use vair.Base.{
  cons_some, ℕ, suc, ◌+◌, ◌≡◌, ◌≢◌, refl, ap, ◌∙◌, Bool, true, false, List, [], ◌∷◌, ◌++◌, map,
  none, some, codes, same, same_refl, if◌then◌else◌, arith,
}
use vair.Base.Json.{
  Json, null, boolean, number, text, array, object, Items, no_items, item, Fields, get, put, items,
  append_items, get-put_self, get-put_other, put_if,
}
use vair.Hops.{
  tag_for, has_tag, find_tag, IsInjective, tag_for_apart, find_tag-hit, find_tag-miss,
  find_tag-found, Linked, Starts, dial_path-stop, dial_path-step, hops_from, find_tag-hops_from,
}
use vair.Node.{Env}
use vair.Singbox.{is_positive}
use vair.Xray.Chain.{
  Access, direct_outbound, block_outbound, dialer, dial_through, xray_shell, set_outbounds,
  fragmented, fragment_outbound, fragment_outbounds, apply_xray_fragment, finish_xray, xray_hop,
}
use vair.Xray.Chain.Wiring.{
  dest, through, objects_in, outbounds_in, outbounds_of, has_tag-xray_hop, dest-xray_hop,
  through-xray_hop,
}

objects_in-objects :
    (xs : List Fields) (ys : List Json)
    → objects_in (items (map object xs ++ ys)) ≡ xs ++ objects_in (items ys)
objects_in-objects [] ys = refl
objects_in-objects (x ∷ xs) ys = ap (λ r. x ∷ r) (objects_in-objects xs ys)

objects_in-append :
    (us vs : Items) → objects_in (append_items us vs) ≡ objects_in us ++ objects_in vs
unfolding append_items
objects_in-append no_items vs = refl
objects_in-append (item (object m) us) vs = ap (λ r. m ∷ r) (objects_in-append us vs)
objects_in-append (item null us) vs = objects_in-append us vs
objects_in-append (item (boolean b) us) vs = objects_in-append us vs
objects_in-append (item (number n) us) vs = objects_in-append us vs
objects_in-append (item (text s) us) vs = objects_in-append us vs
objects_in-append (item (array ws) us) vs = objects_in-append us vs

-- The outbounds of a configuration before the first hop is changed.
abbrev with_others : Env → List Fields → List Json
with_others env hs = map object hs ++ object (direct_outbound env) ∷ object block_outbound ∷ []

get-put_if :
    (b : Bool) (v w : Json) (m : Fields)
    → get (codes "outbounds") (put_if b "routing" v (put (codes "outbounds") w m)) ≡ some w
get-put_if true v w m =
    get-put_other (codes "outbounds") (codes "routing") v (put (codes "outbounds") w m) refl
    ∙ get-put_self (codes "outbounds") w m
get-put_if false v w m = get-put_self (codes "outbounds") w m

apply_off : (env : Env) (cfg : Fields) → env.fragment ≡ false → apply_xray_fragment env cfg ≡ cfg
unfolding apply_xray_fragment
apply_off env cfg off =
    ap
      (λ (b : Bool).
        if b then set_outbounds (fragment_outbounds env (get (codes "outbounds") cfg)) cfg else cfg)
      off

apply_on :
    (env : Env) (cfg entry : Fields) (rest : Items)
    → env.fragment ≡ true
    → get (codes "outbounds") cfg ≡ some (array (item (object entry) rest))
    → dialer entry ≡ none
    → apply_xray_fragment env cfg
      ≡ put
          (codes "outbounds")
          (array (
            item
              (object (dial_through (codes "fragment") entry))
              (append_items rest (item (object (fragment_outbound env)) no_items))))
          cfg
unfolding apply_xray_fragment fragment_outbounds
apply_on env cfg entry rest on at_outbounds free =
    ap
      (λ (b : Bool).
        if b then set_outbounds (fragment_outbounds env (get (codes "outbounds") cfg)) cfg else cfg)
      on
    ∙ ap (λ o. set_outbounds (fragment_outbounds env o) cfg) at_outbounds
    ∙ ap (λ o. set_outbounds (fragmented env entry rest o) cfg) free

module _ (env : Env) (routing : Json) (a : Access) where
  abbrev whole : List Fields → Fields
  whole hs =
      put_if (is_positive a.socks_port) "routing" routing
        (put (codes "outbounds") (array (items (with_others env hs))) (xray_shell env a))

  outbounds_whole :
      (hs : List Fields)
      → get (codes "outbounds") (whole hs) ≡ some (array (items (with_others env hs)))
  outbounds_whole hs =
      get-put_if (is_positive a.socks_port) routing (array (items (with_others env hs)))
        (xray_shell env a)

  pub outbounds_plain :
      (hs : List Fields)
      → env.fragment ≡ false
      → outbounds_of (finish_xray env routing a hs)
        ≡ hs ++ direct_outbound env ∷ block_outbound ∷ []
  unfolding finish_xray
  outbounds_plain hs off =
      ap outbounds_of (apply_off env (whole hs) off)
      ∙ ap outbounds_in (outbounds_whole hs)
      ∙ objects_in-objects hs (object (direct_outbound env) ∷ object block_outbound ∷ [])

  pub outbounds_fragmented :
      (h : Fields) (hs : List Fields)
      → env.fragment ≡ true
      → dialer h ≡ none
      → outbounds_of (finish_xray env routing a (h ∷ hs))
        ≡ dial_through (codes "fragment") h ∷ (hs ++ direct_outbound env ∷ block_outbound ∷ [])
          ++ fragment_outbound env ∷ []
  unfolding finish_xray
  outbounds_fragmented h hs on free =
      ap outbounds_of (
        apply_on env (whole (h ∷ hs)) h (items (with_others env hs)) on (outbounds_whole (h ∷ hs))
          free)
      ∙ ap outbounds_in (get-put_self (codes "outbounds") _ (whole (h ∷ hs)))
      ∙ ap (λ r. dial_through (codes "fragment") h ∷ r)
          (objects_in-append (items (with_others env hs)) _
            ∙ ap (λ r. r ++ fragment_outbound env ∷ [])
                (objects_in-objects hs (object (direct_outbound env) ∷ object block_outbound ∷ [])))

-- What the configurations have in common: the first outbound is the first hop's, changed or not.
module _ (env : Env) (injective : IsInjective env.show) (last : ℕ) (ob0 : Fields)
    (obs : List Fields) (entry : Fields) (others : List Fields)
    (entry_tag : (t : List ℕ) → has_tag t entry ≡ same (tag_for env.show last 0) t) where
  abbrev pub outs : List Fields
  outs = entry ∷ hops_from (xray_hop env last) 1 obs ++ others

  pub chain_Linked :
      Linked through outs (tag_for env.show last) dest (xray_hop env last) (ob0 ∷ obs)
  chain_Linked i ob h =
      let other : 0 ≢ suc i = λ e. omega arith in
      let index : 1 + i ≡ suc i = omega arith in
      let found =
        find_tag-hops_from env.show injective last (xray_hop env last) (has_tag-xray_hop env last) 1
          i obs ob h in
      let behind =
        find_tag-found (tag_for env.show last (1 + i)) (hops_from (xray_hop env last) 1 obs) others
          (xray_hop env last (1 + i) ob) found in
      let miss =
        entry_tag (tag_for env.show last (suc i))
        ∙ tag_for_apart env.show injective last 0 (suc i) other in
      (
        find_tag-miss (tag_for env.show last (suc i)) entry _ miss ∙ rw (← index) behind,
        through-xray_hop env last i ob,
        dest-xray_hop env last (suc i) ob,
      )

  found_entry : find_tag (tag_for env.show last 0) outs ≡ some entry
  found_entry =
      find_tag-hit (tag_for env.show last 0) entry _
        (entry_tag (tag_for env.show last 0) ∙ same_refl (tag_for env.show last 0))

  pub Starts-direct :
      through entry ≡ none
      → dest entry ≡ dest ob0
      → Starts through outs (tag_for env.show last) dest (xray_hop env last) (ob0 ∷ obs) 1 []
  Starts-direct free same_dest ob h =
      let equal : ob0 ≡ ob = cc in
      ap (Option.map (map dest))
        (dial_path-stop through outs 1 (tag_for env.show last 0) entry found_entry free)
      ∙ ap (λ d. some (d ∷ [])) (same_dest ∙ ap dest equal)

  pub Starts-fragmented :
      (t : List ℕ) (f : Fields)
      → through entry ≡ some t
      → find_tag t outs ≡ some f
      → through f ≡ none
      → dest entry ≡ dest ob0
      → Starts through outs
          (tag_for env.show last)
          dest
          (xray_hop env last)
          (ob0 ∷ obs)
          1
          (dest f ∷ [])
  Starts-fragmented t f by_t found free same_dest ob h =
      let equal : ob0 ≡ ob = cc in
      ap (Option.map (map dest)) (
        dial_path-step through outs 1 (tag_for env.show last 0) t entry found_entry by_t
        ∙ ap (cons_some (some entry)) (dial_path-stop through outs 0 t f found free))
      ∙ ap (λ d. some (d ∷ dest f ∷ [])) (same_dest ∙ ap dest equal)

-- No hop has the tag of the fragment outbound.
pub tag_for-fragment :
    (show : ℕ → List ℕ) (last i : ℕ) → same (tag_for show last i) (codes "fragment") ≡ false
unfolding tag_for
tag_for-fragment show last i = ground arith
