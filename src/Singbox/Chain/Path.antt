-- ===== src/Singbox/Chain/Path.antt =====
-- The way of a connection through a sing-box chain.
use vair.Base.{
  ℕ, zero, suc, ◌≡◌, refl, ap, ◌∙◌, Bool, true, false, ◌&&◌, not, List, Option, none, some, codes,
  same, if◌then◌else◌,
}
use vair.Base.Json.{
  Json, null, boolean, number, text, array, object, Fields, get, put, get-put_self, get-put_other,
  text_of,
}
use vair.Hops.{tag_for, has_tag, text_is, has_tag-put, has_tag-put_other}
use vair.Node.{Env}
use vair.Singbox.Chain.{singbox_hop, apply_singbox_fragment, with_cut, is_enabled, is_cut, is_there}

-- What an outbound or an endpoint is to the network.
abbrev pub dest : Fields → Option Json × Option Json × Option Json × Option Json
dest m = (
  get (codes "type") m,
  get (codes "server") m,
  get (codes "server_port") m,
  get (codes "peers") m,
)

-- The tag that it is dialled through.
abbrev pub through : Fields → Option (List ℕ)
through m = text_of (get (codes "detour") m)

module _ (env : Env) (k : List ℕ) (apart : same (codes "tls") k ≡ false) where
  get-put_tls :
      (b : Bool) (v : Json) (out : Fields)
      → get k (if b then put (codes "tls") v out else out) ≡ get k out
  get-put_tls true v out = get-put_other k (codes "tls") v out apart
  get-put_tls false v out = refl

  get-with_cut : (o : Option Json) (out : Fields) → get k (with_cut env o out) ≡ get k out
  get-with_cut none out = refl
  get-with_cut (some (object tls)) out = get-put_tls (is_enabled (get (codes "enabled") tls)) _ out
  get-with_cut (some null) out = refl
  get-with_cut (some (boolean b)) out = refl
  get-with_cut (some (number n)) out = refl
  get-with_cut (some (text s)) out = refl
  get-with_cut (some (array vs)) out = refl

  -- The cut changes the TLS block only.
  get-apply_singbox_fragment : (out : Fields) → get k (apply_singbox_fragment env out) ≡ get k out
  unfolding apply_singbox_fragment
  get-apply_singbox_fragment out =
      either (
        env.fragment
        && is_cut (get (codes "type") out)
        && not (is_there (get (codes "detour") out)))
    where
      either :
          (b : Bool)
          → get k (if b then with_cut env (get (codes "tls") out) out else out) ≡ get k out
      either true = get-with_cut (get (codes "tls") out) out
      either false = refl

dest-put :
    (k : List ℕ) (v : Json) (m : Fields)
    → same k (codes "type") ≡ false
    → same k (codes "server") ≡ false
    → same k (codes "server_port") ≡ false
    → same k (codes "peers") ≡ false
    → dest (put k v m) ≡ dest m
dest-put k v m a b c d = λ i. (
  get-put_other (codes "type") k v m a i,
  get-put_other (codes "server") k v m b i,
  get-put_other (codes "server_port") k v m c i,
  get-put_other (codes "peers") k v m d i,
)

dest-apply : (env : Env) (m : Fields) → dest (apply_singbox_fragment env m) ≡ dest m
dest-apply env m = λ i. (
  get-apply_singbox_fragment env (codes "type") refl m i,
  get-apply_singbox_fragment env (codes "server") refl m i,
  get-apply_singbox_fragment env (codes "server_port") refl m i,
  get-apply_singbox_fragment env (codes "peers") refl m i,
)

module _ (env : Env) (last : ℕ) where
  abbrev tag_text : ℕ → Json
  tag_text i = text (tag_for env.show last i)

  abbrev named : ℕ → Fields → Fields
  named i m = put (codes "tag") (tag_text i) m

  pub has_tag-singbox_hop :
      (t : List ℕ) (i : ℕ) (m : Fields)
      → has_tag t (singbox_hop env last i m) ≡ same (tag_for env.show last i) t
  unfolding singbox_hop has_tag
  has_tag-singbox_hop t zero m =
      ap (text_is t) (get-apply_singbox_fragment env (codes "tag") refl (named 0 m))
      ∙ has_tag-put t (tag_for env.show last 0) m
  has_tag-singbox_hop t (suc i) m =
      has_tag-put_other t (codes "detour") (tag_text i) (named (suc i) m) refl
      ∙ has_tag-put t (tag_for env.show last (suc i)) m

  pub dest-singbox_hop : (i : ℕ) (m : Fields) → dest (singbox_hop env last i m) ≡ dest m
  unfolding singbox_hop
  dest-singbox_hop zero m =
      dest-apply env (named 0 m) ∙ dest-put (codes "tag") (tag_text 0) m refl refl refl refl
  dest-singbox_hop (suc i) m =
      dest-put (codes "detour") (tag_text i) (named (suc i) m) refl refl refl refl
      ∙ dest-put (codes "tag") (tag_text (suc i)) m refl refl refl refl

  pub through-singbox_hop :
      (i : ℕ) (m : Fields)
      → through (singbox_hop env last (suc i) m) ≡ some (tag_for env.show last i)
  unfolding singbox_hop
  through-singbox_hop i m =
      ap text_of (get-put_self (codes "detour") (tag_text i) (named (suc i) m))

  pub through-entry :
      (m : Fields) → get (codes "detour") m ≡ none → through (singbox_hop env last 0 m) ≡ none
  unfolding singbox_hop
  through-entry m free = ap text_of (
      get-apply_singbox_fragment env (codes "detour") refl (named 0 m)
      ∙ get-put_other (codes "detour") (codes "tag") (tag_text 0) m refl
      ∙ free)
