-- ===== src/Saver.antt =====
-- core/entry_move.go: `saveTabOrder`, which writes a tab's order to disk off its caller's path.
-- The state is what it keeps of one tab: `orderSave.running[tab]` and `orderSave.again[tab]`, the
-- goroutines that it started, each at its place in the loop, the order in memory and on disk.
-- A section under one lock is one step. `movers` are the calls of `MoveEntries` between their
-- change of the order and their call of `saveTabOrder`.
pub mod Order
use vair.Base.{ℕ, zero, suc, ◌≡◌, Bool, true, false, not, List, [], ◌∷◌, ◌++◌, if◌then◌else◌}

-- At the top of the loop; with the order copied; with it written.
pub data Phase : Type 0 where
  round : Phase
  copied : List ℕ → Phase
  written : Phase

pub record Saver : Type 0 where
  pub has_store : Bool
  pub running : Bool
  pub again : Bool
  pub writers : List Phase
  pub memory : List ℕ
  pub disk : List ℕ
  pub movers : ℕ
  -- The last write failed.
  pub failed : Bool

unfoldable pub save_tab_order : Saver → Saver
save_tab_order s =
    if not s.has_store
    then s
    else if s.running
    then record s { again = true }
    else record s { running = true; writers = s.writers ++ round ∷ [] }

-- The next section of the loop of one writer, between the others.
unfoldable pub write_on : Saver → List Phase → Phase → List Phase → Bool → Saver
write_on s before round after fails = record s { writers = before ++ copied s.memory ∷ after }
write_on s before (copied out) after fails = record s {
  writers = before ++ written ∷ after;
  disk = if fails then s.disk else out;
  failed = fails;
}
write_on s before written after fails =
    if s.again
    then record s { again = false; writers = before ++ round ∷ after }
    else record s { running = false; writers = before ++ after }

-- A change of the order, a mover's call, or a writer's next section; a write may fail.
pub data Step : Saver → Saver → Type 0 where
  moving :
      (s : Saver) (order : List ℕ) → Step s (record s { memory = order; movers = suc s.movers })
  saving :
      (s : Saver) (n : ℕ) → s.movers ≡ suc n → Step s (save_tab_order (record s { movers = n }))
  writing :
      (s : Saver) (before : List Phase) (p : Phase) (after : List Phase) (fails : Bool)
      → s.writers ≡ before ++ p ∷ after
      → Step s (write_on s before p after fails)

pub data Reach (s : Saver) : Saver → Type 0 where
  here : Reach s s
  next : {t u : Saver} → Reach s t → Step t u → Reach s u

-- A tab as it was loaded.
abbrev pub loaded_tab : List ℕ → Saver
loaded_tab order = record {
  has_store = true;
  running = false;
  again = false;
  writers = [];
  memory = order;
  disk = order;
  movers = 0;
  failed = false;
}

abbrev pub is_empty_list : List Phase → Bool
is_empty_list [] = true
is_empty_list (p ∷ ps) = false

abbrev pub first_on : Saver → List Phase → Saver
first_on s [] = s
first_on s (p ∷ ps) = write_on s [] p ps false

-- That many sections of the first writer, whose writes succeed.
unfoldable pub drain : ℕ → Saver → Saver
drain zero s = s
drain (suc n) s = drain n (first_on s s.writers)
