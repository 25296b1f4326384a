-- ===== src/Spy.antt =====
-- core/relayspy.go: what reading the passing bytes may conclude, and the rules by which a reader
-- is shown to settle: it never panics, and more bytes never change a conclusion.
pub mod Request
pub mod ServerName
use vair.Base.{
  ℕ, ◌≤◌, ◌<◌, ◌≡◌, refl, Bool, true, false, ◌⊎◌, inl, inr, ◌++◌, arith, ltb, le→ltb, if◌then◌else◌,
  length, length-append, Bytes, Outcome, ok, ◌>>=◌, at, at_in_range, Bool-cases,
}

pub data SpyState : Type 0 where
  need_more found rejected : SpyState

-- `now` is the reader on the bytes so far, `later` the same reader with more bytes behind them.
abbrev pub Settles {ℓ} : {A : Type ℓ} → Outcome (A × SpyState) → Outcome (A × SpyState) → Type ℓ
Settles {A = A} now later = (r : A × SpyState) × (now ≡ ok r) × ((r.1 ≡ need_more) ⊎ (later ≡ ok r))

module _ {ℓ} {A : Type ℓ} where
  pub Settles-answer : (r : A × SpyState) → Settles (ok r) (ok r)
  Settles-answer r = (r, refl, inr refl)

  pub Settles-if :
      (t : Bool) {x y x' y' : Outcome (A × SpyState)}
      → Settles x x'
      → Settles y y'
      → Settles (if t then x else y) (if t then x' else y')
  Settles-if true p q = p
  Settles-if false p q = q

  pub Settles-at :
      (b more : Bytes) (i : ℕ) {f g : ℕ → Outcome (A × SpyState)}
      → i < length b
      → ((c : ℕ) → Settles (f c) (g c))
      → Settles (at b i >>= f) (at (b ++ more) i >>= g)
  Settles-at b more i h p = let (c, e, e') = at_in_range b more i h in rw (e, e') (p c)

  pub Settles-need :
      (b more : Bytes) (n : ℕ) (w : A) {m m' : Outcome (A × SpyState)}
      → (n ≤ length b → Settles m m')
      → Settles
          (if ltb (length b) n then ok (w, need_more) else m)
          (if ltb (length (b ++ more)) n then ok (w, need_more) else m')
  Settles-need b more n w p = elim (Bool-cases (ltb (length b) n)) [
    | inl short ↦ rw short ((w, need_more), refl, inl refl)
    | inr long ↦
        let h : n ≤ length b = ground arith in
        rw (long, le→ltb (length (b ++ more)) n (omega (arith, length-append b more))) (p h)
  ]
