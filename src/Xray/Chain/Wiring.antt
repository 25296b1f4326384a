-- ===== src/Xray/Chain/Wiring.antt =====
-- How the hops of an xray chain hang together.
use vair.Base.{
  ℕ, zero, suc, ◌≡◌, refl, ap, ◌∙◌, false, List, [], ◌∷◌, Option, some, codes, same, arith,
  cons_some, cons_some_parts,
}
use vair.Base.Json.{
  Json, text, array, object, Items, no_items, item, Fields, get, put, text_of, inner, inner_of,
  inner-put, get-put_self, get-put_other,
}
use vair.Hops.{tag_for, has_tag, has_tag-put, has_tag-put_other, hops_from}
use vair.Node.{Env, Node}
use vair.Xray.{xray_outbound_for_node}
use vair.Xray.Chain.{dialer, dial_through, xray_hop, xray_hops}

abbrev pub Dest : Type 0
Dest = Option Json × Option Json × Option Json × Option Json × Option Json × Option Json

abbrev stream : Fields → Fields
stream ob = inner (codes "streamSettings") ob

-- What an outbound is to the network: its protocol with its settings, and the transport and the
-- encryption of its stream.
abbrev pub dest : Fields → Dest
dest ob = (
  get (codes "protocol") ob,
  get (codes "settings") ob,
  get (codes "network") (stream ob),
  get (codes "security") (stream ob),
  get (codes "tlsSettings") (stream ob),
  get (codes "realitySettings") (stream ob),
)

-- The tag that an outbound is dialled through.
abbrev pub through : Fields → Option (List ℕ)
through ob = text_of (dialer ob)

abbrev pub objects_in : Items → List Fields
objects_in no_items = []
objects_in (item (object m) rest) = m ∷ objects_in rest
objects_in (item _ rest) = objects_in rest

abbrev pub outbounds_in : Option Json → List Fields
outbounds_in (some (array vs)) = objects_in vs
outbounds_in _ = []

abbrev pub outbounds_of : Fields → List Fields
outbounds_of cfg = outbounds_in (get (codes "outbounds") cfg)

-- The outbounds of the nodes, if each has one.
unfoldable pub raw_outbounds : Env → List Node → Option (List Fields)
raw_outbounds env [] = some []
raw_outbounds env (n ∷ ns) = cons_some (xray_outbound_for_node env n) (raw_outbounds env ns)

pub dialer-dial_through : (t : List ℕ) (ob : Fields) → dialer (dial_through t ob) ≡ some (text t)
unfolding dialer dial_through
dialer-dial_through t ob =
    ap (λ m. get (codes "dialerProxy") (inner (codes "sockopt") m))
      (inner-put (codes "streamSettings") _ ob)
    ∙ ap (get (codes "dialerProxy")) (inner-put (codes "sockopt") _ _)
    ∙ get-put_self (codes "dialerProxy") (text t) _

dest-put_tag : (v : Json) (ob : Fields) → dest (put (codes "tag") v ob) ≡ dest ob
dest-put_tag v ob =
    let kept = get-put_other (codes "streamSettings") (codes "tag") v ob refl in
    λ i. (
      get-put_other (codes "protocol") (codes "tag") v ob refl i,
      get-put_other (codes "settings") (codes "tag") v ob refl i,
      get (codes "network") (inner_of (kept i)),
      get (codes "security") (inner_of (kept i)),
      get (codes "tlsSettings") (inner_of (kept i)),
      get (codes "realitySettings") (inner_of (kept i)),
    )

-- A stream keeps what is not its `sockopt`.
stream-dial_through :
    (k t : List ℕ) (ob : Fields)
    → same (codes "sockopt") k ≡ false
    → get k (stream (dial_through t ob)) ≡ get k (stream ob)
unfolding dial_through
stream-dial_through k t ob h =
    ap (get k) (inner-put (codes "streamSettings") _ ob)
    ∙ get-put_other k (codes "sockopt") _ (stream ob) h

outside_stream :
    (k t : List ℕ) (ob : Fields)
    → same (codes "streamSettings") k ≡ false
    → get k (dial_through t ob) ≡ get k ob
unfolding dial_through
outside_stream k t ob h = get-put_other k (codes "streamSettings") _ ob h

pub dest-dial_through : (t : List ℕ) (ob : Fields) → dest (dial_through t ob) ≡ dest ob
dest-dial_through t ob = λ i. (
  outside_stream (codes "protocol") t ob refl i,
  outside_stream (codes "settings") t ob refl i,
  stream-dial_through (codes "network") t ob refl i,
  stream-dial_through (codes "security") t ob refl i,
  stream-dial_through (codes "tlsSettings") t ob refl i,
  stream-dial_through (codes "realitySettings") t ob refl i,
)

pub has_tag-dial_through :
    (t s : List ℕ) (ob : Fields) → has_tag t (dial_through s ob) ≡ has_tag t ob
unfolding dial_through
has_tag-dial_through t s ob = has_tag-put_other t _ _ ob refl

pub dialer-put_tag : (v : Json) (ob : Fields) → dialer (put (codes "tag") v ob) ≡ dialer ob
unfolding dialer
dialer-put_tag v ob =
    ap (λ m. get (codes "dialerProxy") (inner (codes "sockopt") (inner_of m)))
      (get-put_other (codes "streamSettings") (codes "tag") v ob refl)

module _ (env : Env) (last : ℕ) where
  pub has_tag-xray_hop :
      (t : List ℕ) (i : ℕ) (ob : Fields)
      → has_tag t (xray_hop env last i ob) ≡ same (tag_for env.show last i) t
  unfolding xray_hop
  has_tag-xray_hop t zero ob = has_tag-put t (tag_for env.show last 0) ob
  has_tag-xray_hop t (suc i) ob =
      has_tag-dial_through t (tag_for env.show last i) _
      ∙ has_tag-put t (tag_for env.show last (suc i)) ob

  pub dest-xray_hop : (i : ℕ) (ob : Fields) → dest (xray_hop env last i ob) ≡ dest ob
  unfolding xray_hop
  dest-xray_hop zero ob = dest-put_tag _ ob
  dest-xray_hop (suc i) ob = dest-dial_through (tag_for env.show last i) _ ∙ dest-put_tag _ ob

  pub through-xray_hop :
      (i : ℕ) (ob : Fields)
      → through (xray_hop env last (suc i) ob) ≡ some (tag_for env.show last i)
  unfolding xray_hop
  through-xray_hop i ob = ap text_of (
      dialer-dial_through (tag_for env.show last i)
        (put (codes "tag") (text (tag_for env.show last (suc i))) ob))

  pub xray_hops_eq :
      (i : ℕ) (ns : List Node) (obs : List Fields)
      → raw_outbounds env ns ≡ some obs
      → xray_hops env last i ns ≡ some (hops_from (xray_hop env last) i obs)
  unfolding xray_hops raw_outbounds
  xray_hops_eq i [] [] h = refl
  xray_hops_eq i [] (ob ∷ obs) h = absurd (ground (arith, h))
  xray_hops_eq i (n ∷ ns) obs h =
      let (ob, rest, one, more, equal) =
        cons_some_parts (xray_outbound_for_node env n) (raw_outbounds env ns) obs h in
      rw (equal, one, xray_hops_eq (suc i) ns rest more) refl
