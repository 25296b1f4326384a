-- ===== src/Table/Move/Laws.antt =====
-- What `MoveEntries` does to a table.
use mathlib.Core.List.{Nodup, Mem, Perm}
use mathlib.Core.List.Perm
use vair.Base.{
  ℕ, ◌≡◌, ◌≢◌, refl, Bool, true, List, [], some, String, arith, take, take-append-drop, member, ℤ,
  map, select-perm, front-perm,
}
use vair.Table.{Table, index_of, ◌===◌, ===_iff}
use vair.Table.Move.{commit, lookup, moving_rows, staying_rows, move_entries}
use vair.Table.Move.Cases.{moved_to, move_cases}
use vair.Table.Move.Numbering.{Numbers, with_index, renumber_content, renumber-Numbers}
use vair.Table.Move.Following.{follow-renumber}

-- The table after the drag, and the indices that the call returns.
abbrev pub after_move : Table → String → List ℕ → ℤ → Bool → Table
after_move s tab indices target after = (move_entries s tab indices target after).0

===_refl : (t : String) → t === t ≡ true
===_refl t = (===_iff t t).1 refl

pub commit_list :
    (s : Table) (tab : String) (out : List ℕ) → (commit s tab out).tab_entries tab ≡ out
unfolding commit
commit_list s tab out = rw (===_refl tab) refl

pub moved_to-perm :
    (s : Table) (tab : String) (indices : List ℕ) (p : ℕ)
    → Perm (moved_to p (moving_rows s tab indices) (staying_rows s tab indices)) (s.tab_entries tab)
moved_to-perm s tab indices p =
    Perm.trans (front-perm (take p (staying_rows s tab indices)) (moving_rows s tab indices) _) (
      rw (take-append-drop p (staying_rows s tab indices))
        (select-perm (λ e. member (s.cell e).index indices) (s.tab_entries tab)))

-- No drag loses a configuration, makes one up or doubles one: the tab holds the same entries.
pub move_entries-perm :
    (s : Table) (tab : String) (indices : List ℕ) (target : ℤ) (after : Bool)
    → Perm ((after_move s tab indices target after).tab_entries tab) (s.tab_entries tab)
move_entries-perm s tab indices target after =
    move_cases (λ r. Perm (r.0.tab_entries tab) (s.tab_entries tab)) s tab indices target after
      (Perm.refl _)
      (λ p _ _. rw (commit_list s tab (moved_to p _ _)) (moved_to-perm s tab indices p))

commit-Numbers :
    (s : Table) (tab : String) (out : List ℕ)
    → Nodup out
    → Numbers (commit s tab out).cell ((commit s tab out).tab_entries tab) 0
commit-Numbers s tab out d =
    rw (commit_list s tab out) (unfold commit in renumber-Numbers s.cell out 0 [] d)

-- Behind a drag the tab's rows are numbered by their places, if they were before it: `memEntry`
-- and the table's order on disk rest on it.
pub move_entries-Numbers :
    (s : Table) (tab : String) (indices : List ℕ) (target : ℤ) (after : Bool)
    → Nodup (s.tab_entries tab)
    → Numbers s.cell (s.tab_entries tab) 0
    → Numbers
        (after_move s tab indices target after).cell
        ((after_move s tab indices target after).tab_entries tab)
        0
move_entries-Numbers s tab indices target after d h =
    move_cases (λ r. Numbers r.0.cell (r.0.tab_entries tab) 0) s tab indices target after h
      (λ p _ _. commit-Numbers s tab _ (Perm.nodup (Perm.symm (moved_to-perm s tab indices p)) d))

commit_content :
    (s : Table) (tab : String) (out : List ℕ) (e : ℕ)
    → (commit s tab out).cell e ≡ with_index (s.cell e) (index_of (commit s tab out).cell e)
unfolding commit
commit_content s tab out e = renumber_content s.cell out 0 [] e

commit_other :
    (s : Table) (tab : String) (out : List ℕ) (other : String)
    → other ≢ tab
    → (commit s tab out).tab_entries other ≡ s.tab_entries other
unfolding commit
commit_other s tab out other h = ground (arith, ===_iff other tab)

-- A drag changes no configuration but its index, and no other tab's list.
pub move_entries_frame :
    (s : Table) (tab : String) (indices : List ℕ) (target : ℤ) (after : Bool) (e : ℕ)
    (other : String)
    → other ≢ tab
    → ((after_move s tab indices target after).cell e
        ≡ with_index (s.cell e) (index_of (after_move s tab indices target after).cell e))
      × ((after_move s tab indices target after).tab_entries other ≡ s.tab_entries other)
move_entries_frame s tab indices target after e other h =
    move_cases
      (λ r.
        (r.0.cell e ≡ with_index (s.cell e) (index_of r.0.cell e))
        × (r.0.tab_entries other ≡ s.tab_entries other))
      s tab indices target after (refl, refl)
      (λ p _ _. (commit_content s tab _ e, commit_other s tab _ other h))

commit_conn :
    (s : Table) (tab : String) (out : List ℕ) (e : ℕ)
    → Nodup out
    → Nodup (map (index_of s.cell) out)
    → Mem e out
    → s.conn_tab ≡ tab
    → s.entry_index ≡ some (index_of s.cell e)
    → (commit s tab out).entry_index ≡ some (index_of (commit s tab out).cell e)
unfolding commit
commit_conn s tab out e d di r ours named =
    rw (ours, ===_refl tab, named)
      (follow-renumber s.cell e out 0 [] d di (unfold lookup in refl) r)

-- The connection goes on naming its configuration: the index that it holds is the new index of
-- the entry that it named, if the entries of its tab had different indices.
pub move_entries_conn :
    (s : Table) (tab : String) (indices : List ℕ) (target : ℤ) (after : Bool) (e : ℕ)
    → Nodup (s.tab_entries tab)
    → Nodup (map (index_of s.cell) (s.tab_entries tab))
    → Mem e (s.tab_entries tab)
    → s.conn_tab ≡ tab
    → s.entry_index ≡ some (index_of s.cell e)
    → (after_move s tab indices target after).entry_index
      ≡ some (index_of (after_move s tab indices target after).cell e)
move_entries_conn s tab indices target after e d di r ours named =
    move_cases (λ q. q.0.entry_index ≡ some (index_of q.0.cell e)) s tab indices target after named
      (λ p _ _.
        let back = Perm.symm (moved_to-perm s tab indices p) in
        commit_conn s tab _ e (Perm.nodup back d) (Perm.nodup (Perm.map (index_of s.cell) back) di)
          ((Perm.mem_iff back).0 r) ours named)
