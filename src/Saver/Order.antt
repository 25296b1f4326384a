-- ===== src/Saver/Order.antt =====
-- What the protocol of `saveTabOrder` keeps.
use vair.Base.{
  ℕ, suc, ◌≡◌, ◌⊎◌, inl, inr, refl, ◌∙◌, Bool, true, false, List, [], ◌∷◌, ◌++◌, arith, Bool-cases,
  length, subst, not, ◌≤◌,
}
use vair.Saver.{
  Phase, round, copied, written, Saver, save_tab_order, write_on, Step, moving, saving, writing,
  Reach, here, next, loaded_tab, is_empty_list, drain,
}

-- With no change waiting for its mover's call, the disk has the order or the writer is about to
-- write it.
abbrev pub Covered : Saver → Phase → Type 0
Covered s round = Unit {0}
Covered s (copied out) = (s.again ≡ true) ⊎ (out ≡ s.memory)
Covered s written = (s.again ≡ true) ⊎ ((s.disk ≡ s.memory) ⊎ (s.failed ≡ true))

-- At most one writer, which `running` tells of.
abbrev pub Writing : Saver → List Phase → Type 0
Writing s [] =
    (s.running ≡ false)
    × (s.again ≡ false)
    × (s.movers ≡ 0 → (s.disk ≡ s.memory) ⊎ (s.failed ≡ true))
Writing s (p ∷ []) = (s.running ≡ true) × (s.movers ≡ 0 → Covered s p)
Writing s (p ∷ q ∷ ps) = ⊥

abbrev pub IsKept : Saver → Type 0
IsKept s = (s.has_store ≡ true) × Writing s s.writers

-- A list of at most one writer, parted at a writer.
only :
    (s : Saver) (before : List Phase) (p : Phase) (after : List Phase)
    → Writing s (before ++ p ∷ after)
    → (before ≡ []) × (after ≡ []) × (s.running ≡ true) × (s.movers ≡ 0 → Covered s p)
only s [] p [] w = (refl, refl, w.0, w.1)
only s [] p (q ∷ after) w = absurd w
only s (b ∷ []) p after w = absurd w
only s (b ∷ c ∷ before) p after w = absurd w

write-Writing :
    (s : Saver) (p : Phase) (fails : Bool)
    → s.running ≡ true
    → (s.movers ≡ 0 → Covered s p)
    → Writing (write_on s [] p [] fails) (write_on s [] p [] fails).writers
unfolding write_on
write-Writing s round fails on c = (on, λ m. inr refl)
write-Writing s (copied out) true on c = (on, λ m. inr (inr refl))
write-Writing s (copied out) false on c =
    (on, λ m. elim (c m) [ inl again ↦ inl again | inr same ↦ inr (inl same) ])
write-Writing s written fails on c = elim (Bool-cases s.again) [
  | inl again ↦ rw again (on, λ m. tt)
  | inr last ↦ rw last (
    refl,
    refl,
    λ m. elim (c m) [ inl again ↦ absurd (ground (arith, again, last)) | inr done ↦ done ],
  )
]

write-has_store :
    (s : Saver) (p : Phase) (fails : Bool) → (write_on s [] p [] fails).has_store ≡ s.has_store
unfolding write_on
write-has_store s round fails = refl
write-has_store s (copied out) fails = refl
write-has_store s written fails = ground arith

-- A mover's call leaves a writer that is yet to copy the order, or one that goes round again.
save-Writing :
    (s : Saver) (n : ℕ) (ws : List Phase)
    → s.has_store ≡ true
    → s.writers ≡ ws
    → Writing s ws
    → IsKept (save_tab_order (record s { movers = n }))
unfolding save_tab_order
save-Writing s n [] st e w = rw (st, w.0, e) (refl, (refl, λ m. tt))
save-Writing s n (round ∷ []) st e w = rw (st, w.0, e) (refl, (refl, λ m. tt))
save-Writing s n (copied out ∷ []) st e w = rw (st, w.0, e) (refl, (refl, λ m. inl refl))
save-Writing s n (written ∷ []) st e w = rw (st, w.0, e) (refl, (refl, λ m. inl refl))
save-Writing s n (p ∷ q ∷ ps) st e w = absurd w

-- A change of the order owes a call.
move-Writing :
    (s : Saver) (order : List ℕ) (ws : List Phase)
    → Writing s ws
    → Writing (record s { memory = order; movers = suc s.movers }) ws
move-Writing s order [] w = (w.0, w.1, λ m. absurd (omega arith))
move-Writing s order (p ∷ []) w = (w.0, λ m. absurd (omega arith))
move-Writing s order (p ∷ q ∷ ps) w = w

Step-IsKept : {s t : Saver} → Step s t → IsKept s → IsKept t
Step-IsKept (moving s order) (st, w) = (st, move-Writing s order s.writers w)
Step-IsKept (saving s n m) (st, w) = save-Writing s n s.writers st refl w
Step-IsKept (writing s before p after fails e) (st, w) =
    let (b, a, on, c) = only s before p after (subst (Writing s) e w) in
    rw (b, a) (write-has_store s p fails ∙ st, write-Writing s p fails on c)

Reach-IsKept : {s t : Saver} → IsKept s → Reach s t → IsKept t
Reach-IsKept k here = k
Reach-IsKept k (next r st) = Step-IsKept st (Reach-IsKept k r)

loaded_tab-IsKept : (order : List ℕ) → IsKept (loaded_tab order)
loaded_tab-IsKept order = (refl, (refl, refl, λ m. inl refl))

-- However the moves, their calls and the writers' sections interleave, and whichever writes fail,
-- a tab has at most one writer at a time, and `running` says whether it has one.
pub one_writer :
    (order : List ℕ) (t : Saver)
    → Reach (loaded_tab order) t
    → (length t.writers ≤ 1) × (t.running ≡ not (is_empty_list t.writers))
one_writer order t r = counted t t.writers (Reach-IsKept (loaded_tab-IsKept order) r).1
  where
    counted :
        (s : Saver) (ws : List Phase)
        → Writing s ws
        → (length ws ≤ 1) × (s.running ≡ not (is_empty_list ws))
    counted s [] w = (omega arith, w.0)
    counted s (p ∷ []) w = (omega arith, w.0)
    counted s (p ∷ q ∷ ps) w = absurd w

-- Once no writer is left and every move has made its call, the disk has the order that the memory
-- has, unless the last write failed.
pub writers_done :
    (order : List ℕ) (t : Saver)
    → Reach (loaded_tab order) t
    → t.writers ≡ []
    → t.movers ≡ 0
    → t.failed ≡ false
    → t.disk ≡ t.memory
writers_done order t r e m good =
    let k = Reach-IsKept (loaded_tab-IsKept order) r in
    elim ((subst (Writing t) e k.1).2 m) [
      | inl same ↦ same
      | inr bad ↦ absurd (ground (arith, bad, good))
    ]

abbrev saver_of : Bool → Bool → Bool → List Phase → List ℕ → List ℕ → ℕ → Bool → Saver
saver_of st r a ws mem d m f = record {
  has_store = st;
  running = r;
  again = a;
  writers = ws;
  memory = mem;
  disk = d;
  movers = m;
  failed = f;
}

-- By the writer's place and whether it is to go round again, the six sections compute.
drain-Writing :
    (st r a : Bool) (ws : List Phase) (mem d : List ℕ) (m : ℕ) (f : Bool)
    → Writing (saver_of st r a ws mem d m f) ws
    → m ≡ 0
    → f ≡ false
    → ((drain 6 (saver_of st r a ws mem d m f)).writers ≡ [])
      × ((drain 6 (saver_of st r a ws mem d m f)).disk ≡ mem)
unfolding drain write_on
drain-Writing st r a [] mem d m f w z good =
    (refl, elim (w.2 z) [ inl same ↦ same | inr bad ↦ absurd (ground (arith, bad, good)) ])
drain-Writing st r true (round ∷ []) mem d m f w z good = (refl, refl)
drain-Writing st r false (round ∷ []) mem d m f w z good = (refl, refl)
drain-Writing st r true (copied out ∷ []) mem d m f w z good = (refl, refl)
drain-Writing st r false (copied out ∷ []) mem d m f w z good =
    (refl, elim (w.1 z) [ inl again ↦ absurd (ground (arith, again)) | inr same ↦ same ])
drain-Writing st r true (written ∷ []) mem d m f w z good = (refl, refl)
drain-Writing st r false (written ∷ []) mem d m f w z good = (
  refl,
  elim (w.1 z) [
    | inl again ↦ absurd (ground (arith, again))
    | inr (inl same) ↦ same
    | inr (inr bad) ↦ absurd (ground (arith, bad, good))
  ],
)
drain-Writing st r a (p ∷ q ∷ ps) mem d m f w z good = absurd w

-- Left alone, and while its writes succeed, the writer ends within six sections with the order
-- that the memory has on disk, wherever it was in its loop and whether or not it was to go round
-- again, if every move has made its call and the last write did not fail.
pub drain_done :
    (order : List ℕ) (t : Saver)
    → Reach (loaded_tab order) t
    → t.movers ≡ 0
    → t.failed ≡ false
    → ((drain 6 t).writers ≡ []) × ((drain 6 t).disk ≡ t.memory)
drain_done order t r m good =
    drain-Writing t.has_store t.running t.again t.writers t.memory t.disk t.movers t.failed
      (Reach-IsKept (loaded_tab-IsKept order) r).1 m good
