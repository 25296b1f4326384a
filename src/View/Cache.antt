-- ===== src/View/Cache.antt =====
-- core/memstore.go: the slot that keeps the last order (`memCacheTab`, `memCacheSig`,
-- `memCacheOrd`, `memCacheGen`), with the readers of `memOrder` that run at once.
-- A section under one lock is one step. `Rows` is what an order is made of and its signature does
-- not count: the tab's list, the texts of its entries, what the service checks found for them.
-- Whoever changes it and then calls `memInvalidate` takes two steps. `RenameEntry` (entry_api.go)
-- and `rememberUnlock` (unlock.go) take the first only. `changed` are the tabs that have changed
-- since the last call for them.
-- An order by results is named by their version: a result that comes in while it is made counts as
-- one of that version.
-- An order without rows is kept like any other; the code's shortcut keeps nil for it, so that the
-- next reader makes it again.
pub mod Current
use vair.Base.{
  ℕ, suc, ◌≡◌, Bool, true, false, ◌&&◌, ◌||◌, List, [], ◌∷◌, ◌++◌, Option, none, some, String,
  if◌then◌else◌, ◌==◌, same,
}
use vair.Table.{◌===◌, update_tab}

module _ (Rows : Type 0) (Order : Type 0) where
  -- A reader that found nothing: before it has read the rows, and with the order made of them.
  pub data Reader : Type 0 where
    looked : ℕ → String → List ℕ → Reader
    ordered : ℕ → String → List ℕ → Order → Reader

  pub record Slot : Type 0 where
    pub rows : String → Rows
    pub cache_tab : String
    pub cache_sig : List ℕ
    pub cache_ord : Option Order
    pub gen : ℕ
    pub readers : List Reader
    pub changed : String → Bool

  unfoldable pub mem_invalidate : String → Slot → Slot
  mem_invalidate tab s =
      let bumped : Slot = record s { gen = suc s.gen } in
      if tab === "" || s.cache_tab === tab
      then record bumped { cache_sig = []; cache_ord = none }
      else bumped

  unfoldable pub mem_cache_store : ℕ → String → List ℕ → Order → Slot → Slot
  mem_cache_store g tab sig ord s =
      if s.gen == g then record s { cache_tab = tab; cache_sig = sig; cache_ord = some ord } else s

  -- A call for the tab, or for all, has come after every change so far.
  abbrev pub announced : String → (String → Bool) → String → Bool
  announced tab changed t = if tab === "" || t === tab then false else changed t

  -- The order found in the slot.
  unfoldable pub look_up : String → List ℕ → Slot → Option Order
  look_up tab sig s = if s.cache_tab === tab && same s.cache_sig sig then s.cache_ord else none

  module _ (compute : List ℕ → Rows → Order) where
    pub data Step : Slot → Slot → Type 0 where
      changing :
          (s : Slot) (tab : String) (new : Rows)
          → Step s (record s {
            rows = update_tab s.rows tab new;
            changed = update_tab s.changed tab true;
          })
      invalidating :
          (s : Slot) (tab : String)
          → Step s (mem_invalidate tab (record s { changed = announced tab s.changed }))
      missing :
          (s : Slot) (tab : String) (sig : List ℕ)
          → look_up tab sig s ≡ none
          → Step s (record s { readers = looked s.gen tab sig ∷ s.readers })
      ordering :
          (s : Slot) (first : List Reader) (g : ℕ) (tab : String) (sig : List ℕ)
          (rest : List Reader)
          → s.readers ≡ first ++ looked g tab sig ∷ rest
          → Step s
              (record s { readers = first ++ ordered g tab sig (compute sig (s.rows tab)) ∷ rest })
      storing :
          (s : Slot) (first : List Reader) (g : ℕ) (tab : String) (sig : List ℕ) (ord : Order)
          (rest : List Reader)
          → s.readers ≡ first ++ ordered g tab sig ord ∷ rest
          → Step s (mem_cache_store g tab sig ord (record s { readers = first ++ rest }))

    pub data Reach (s : Slot) : Slot → Type 0 where
      here : Reach s s
      next : {t u : Slot} → Reach s t → Step t u → Reach s u

  -- At the start, with nothing kept.
  abbrev pub empty_slot : (String → Rows) → Slot
  empty_slot rows = record {
    rows = rows;
    cache_tab = "";
    cache_sig = [];
    cache_ord = none;
    gen = 0;
    readers = [];
    changed = λ tab. false;
  }
