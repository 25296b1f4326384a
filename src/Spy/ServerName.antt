-- ===== src/Spy/ServerName.antt =====
-- core/relayspy.go: `tlsServerName`, the server name of a TLS ClientHello. `valid` is
-- `validHostName`: every theorem holds for any test in its place.
use Prim.Native.Nat.{min}
use vair.Base.{
  >>=-cong, lt→ltb, ◌∙◌, zero-add, suc-add, ap, zero, suc, ℕ, ◌+◌, ◌<◌, ◌≤◌, ◌≡◌, refl, true, false,
  Bool, not, ◌&&◌, [], ◌++◌, arith, ltb, leb, ◌==◌, if◌then◌else◌, length, Bytes, Outcome, ok,
  ◌>>=◌, at, slice, slice_lem, slice_in_range, uint16, uint16_in_range, Returns, Returns-at,
  Returns-if, Bool-cases, inl, inr,
}
use vair.Spy.{SpyState, need_more, found, rejected, Settles, Settles-answer, Settles-need}

module _ (valid : Bytes → Bool) where
  checked_name : Bytes → Bytes × SpyState
  checked_name s = if valid s then (s, found) else ([], rejected)

  -- The body of a server_name extension: list length, type 0, name length, name.
  extension_name : Bytes → ℕ → ℕ → Outcome (Bytes × SpyState)
  unfolding checked_name
  extension_name h p l = uint16 h (p + 3) >>= λ nl. at h (p + 2) >>= λ kind.
      if kind == 0 && leb (5 + nl) l
      then (slice h (p + 5) nl >>= λ s. ok (checked_name s))
      else ok ([], rejected)

  -- The loop over the extensions. A round moves `p` by four bytes at least, so that the length of
  -- the message is fuel enough.
  pub scan : ℕ → Bytes → ℕ → ℕ → Outcome (Bytes × SpyState)
  scan zero h ext_end p = ok ([], rejected)
  scan (suc fuel) h ext_end p =
      if ltb ext_end (p + 4)
      then ok ([], rejected)
      else uint16 h p >>= λ typ. uint16 h (p + 2) >>= λ l. elim (ltb ext_end (p + 4 + l)) [
        | true ↦ ok ([], rejected)
        | false ↦ elim (typ == 0 && leb 5 l) [
          | true ↦ extension_name h (p + 4) l
          | false ↦ scan fuel h ext_end (p + 4 + l)
        ]
      ]

  hello_extensions : Bytes → ℕ → Outcome (Bytes × SpyState)
  hello_extensions h p =
      if ltb (length h) (p + 2)
      then ok ([], rejected)
      else uint16 h p >>= λ n. scan (length h) h (min (p + 2 + n) (length h)) (p + 2)

  hello_compression : Bytes → ℕ → Outcome (Bytes × SpyState)
  hello_compression h p =
      if ltb (length h) (p + 1)
      then ok ([], rejected)
      else at h p >>= λ n. hello_extensions h (p + (1 + n))

  hello_ciphers : Bytes → ℕ → Outcome (Bytes × SpyState)
  hello_ciphers h p =
      if ltb (length h) (p + 2)
      then ok ([], rejected)
      else uint16 h p >>= λ n. hello_compression h (p + (2 + n))

  hello_session : Bytes → ℕ → Outcome (Bytes × SpyState)
  hello_session h p =
      if ltb (length h) (p + 1)
      then ok ([], rejected)
      else at h p >>= λ n. hello_ciphers h (p + (1 + n))

  -- `h` is the handshake message; 38 bytes of it are its header, the version and the random.
  hello : Bytes → Outcome (Bytes × SpyState)
  hello h =
      if ltb (length h) 4
      then ok ([], rejected)
      else at h 0 >>= λ kind. if not (kind == 1) then ok ([], rejected) else hello_session h 38

  pub tls_server_name : Bytes → Outcome (Bytes × SpyState)
  tls_server_name b =
      if ltb (length b) 5
      then ok ([], need_more)
      else uint16 b 3 >>= λ n.
          if ltb (length b) (5 + n) then ok ([], need_more) else slice b 5 n >>= hello

  Returns-uint16 {ℓ} :
      {A : Type ℓ} (b : Bytes) (i : ℕ) {f : ℕ → Outcome A}
      → i + 2 ≤ length b
      → ((c : ℕ) → Returns (f c))
      → Returns (uint16 b i >>= f)
  Returns-uint16 b i h r = let (n, e, _) = uint16_in_range b [] i h in rw e (r n)

  Returns-guard {ℓ} :
      {A : Type ℓ} (m n : ℕ) (a : A) {x : Outcome A}
      → (n ≤ m → Returns x)
      → Returns (if ltb m n then ok a else x)
  Returns-guard m n a r = elim (Bool-cases (ltb m n)) [
    | inl e ↦ rw e (a, refl)
    | inr e ↦ rw e (r (ground arith))
  ]

  extension_name-Returns :
      (h : Bytes) (p l : ℕ) → 5 ≤ l → p + l ≤ length h → Returns (extension_name h p l)
  unfolding extension_name
  extension_name-Returns h p l five fits = Returns-uint16 h (p + 3) (omega arith) λ nl.
      Returns-at h (p + 2) (omega arith) λ kind. elim (Bool-cases (kind == 0 && leb (5 + nl) l)) [
        | inl e ↦ rw (e, slice_lem h (p + 5) nl (ground arith)) (_, refl)
        | inr e ↦ rw e (_, refl)
      ]

  scan-Returns :
      (fuel : ℕ) (h : Bytes) (ext_end p : ℕ) → ext_end ≤ length h → Returns (scan fuel h ext_end p)
  unfolding scan
  scan-Returns zero h ext_end p fits = (_, refl)
  scan-Returns (suc fuel) h ext_end p fits =
      Returns-guard ext_end (p + 4) ([], rejected)
        λ r. Returns-uint16 h p (omega arith) λ typ. Returns-uint16 h (p + 2) (omega arith) λ l.
          elim (Bool-cases (ltb ext_end (p + 4 + l))) [
            | inl e ↦ rw e (_, refl)
            | inr e ↦ rw e (elim (Bool-cases (typ == 0 && leb 5 l)) [
              | inl f ↦ rw f (extension_name-Returns h (p + 4) l (ground arith) (ground arith))
              | inr f ↦ rw f (scan-Returns fuel h ext_end (p + 4 + l) fits)
            ])
          ]

  hello_extensions-Returns : (h : Bytes) (p : ℕ) → Returns (hello_extensions h p)
  unfolding hello_extensions
  hello_extensions-Returns h p =
      Returns-guard (length h) (p + 2) ([], rejected)
        λ r.
          Returns-uint16 h p r
            λ n. scan-Returns (length h) h (min (p + 2 + n) (length h)) (p + 2) (omega arith)

  hello_compression-Returns : (h : Bytes) (p : ℕ) → Returns (hello_compression h p)
  unfolding hello_compression
  hello_compression-Returns h p =
      Returns-guard (length h) (p + 1) ([], rejected)
        λ r. Returns-at h p (omega arith) λ n. hello_extensions-Returns h (p + (1 + n))

  hello_ciphers-Returns : (h : Bytes) (p : ℕ) → Returns (hello_ciphers h p)
  unfolding hello_ciphers
  hello_ciphers-Returns h p =
      Returns-guard (length h) (p + 2) ([], rejected)
        λ r. Returns-uint16 h p r λ n. hello_compression-Returns h (p + (2 + n))

  hello_session-Returns : (h : Bytes) (p : ℕ) → Returns (hello_session h p)
  unfolding hello_session
  hello_session-Returns h p =
      Returns-guard (length h) (p + 1) ([], rejected)
        λ r. Returns-at h p (omega arith) λ n. hello_ciphers-Returns h (p + (1 + n))

  hello-Returns : (h : Bytes) → Returns (hello h)
  unfolding hello
  hello-Returns h =
      Returns-guard (length h) 4 ([], rejected)
        λ r.
          Returns-at h 0 (omega arith)
            λ kind. Returns-if (not (kind == 1)) (_, refl) (hello_session-Returns h 38)

  -- Looking for the server name never indexes out of range, whatever the bytes are, and the name
  -- or the refusal that it concludes stays the same whatever bytes follow.
  pub tls_server_name-Settles :
      (b more : Bytes) → Settles (tls_server_name b) (tls_server_name (b ++ more))
  unfolding tls_server_name
  tls_server_name-Settles b more = Settles-need b more 5 [] λ h.
      let (n, f, f') = uint16_in_range b more 3 h in
      rw (f, f')
        (Settles-need b more (5 + n) [] λ h'.
          let (s, e, e') = slice_in_range b more 5 n h' in
          let (r, g) = hello-Returns s in rw (e, e', g) (Settles-answer r))

  scan-suc :
      (fuel : ℕ) (h : Bytes) (ext_end p : ℕ)
      → ext_end < p + 4 + fuel
      → scan (suc fuel) h ext_end p ≡ scan fuel h ext_end p
  unfolding scan
  scan-suc zero h ext_end p lt = rw (lt→ltb ext_end (p + 4) (omega arith)) refl
  scan-suc (suc fuel) h ext_end p lt =
      ap (λ m. if ltb ext_end (p + 4) then ok ([], rejected) else m)
        (>>=-cong (uint16 h p) λ typ. >>=-cong (uint16 h (p + 2)) λ l.
          ap
            (λ m. elim (ltb ext_end (p + 4 + l)) [
              | true ↦ ok ([], rejected)
              | false ↦ elim (typ == 0 && leb 5 l) [ true ↦ extension_name h (p + 4) l | false ↦ m ]
            ])
            (scan-suc fuel h ext_end (p + 4 + l) (omega arith)))

  -- The loop over the extensions ends by its own test: with any fuel above the message's length
  -- it gives what it gives with the message's length.
  pub scan_fuel :
      (more : ℕ) (h : Bytes) (ext_end p : ℕ)
      → ext_end ≤ length h
      → scan (more + length h) h ext_end p ≡ scan (length h) h ext_end p
  scan_fuel zero h ext_end p fits = rw zero-add refl
  scan_fuel (suc more) h ext_end p fits =
      rw suc-add
        (scan-suc (more + length h) h ext_end p (omega arith) ∙ scan_fuel more h ext_end p fits)
