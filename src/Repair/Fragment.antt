-- ===== src/Repair/Fragment.antt =====
-- src/duck_block_repair.cpp on a bare run of orphans.
use Prim.Native.String.{String}
use text.Mathlib.Text.{◌==◌}
use text.Mathlib.TextPositions.{eq_refl}
use duckdb_panduck.Base.{
  ℕ, zero, suc, ◌≤◌, ◌≡◌, refl, ap, ◌∙◌, true, false, List, [], ◌∷◌, map, some, arith, All,
  append-nil,
}
use duckdb_panduck.Base.Int.{ℤ, pos, ◌+ℤ◌, ◌-ℤ◌, int_laws}
use duckdb_panduck.Vocabulary.{kind_block, implicit_parent_of}
use duckdb_panduck.Repair.Levels.{IsLadder}
use duckdb_panduck.Repair.Whole.{rebase-ladder, collapse_jumps-ladder, read_els-some}
use duckdb_panduck.Repair.{
  Value, El, Frame, el, wrapper, satisfied, pop_to, wrap_loop, wrap_orphans, take_run, drop_run,
  in_run, deepen, shift_of, wrapper_el, with_level_and_order, write_els, repair_blocks,
}

-- A block of kind `k` and type `t` at level 1.
abbrev pub IsOrphan : String → String → Value → Type 0
IsOrphan k t v = (v.kind ≡ some k) × (v.element_type ≡ some t) × (v.level ≡ some (pos 1))

-- Every block at level `l`, numbered from `order`.
unfoldable pub placed_from : ℕ → ℤ → List Value → List Value
placed_from order l [] = []
placed_from order l (v ∷ vs) = with_level_and_order v l (pos order) ∷ placed_from (suc order) l vs

-- What is expected of a fragment: one wrapper at level 1, the blocks under it at level 2.
abbrev pub under_wrapper : String → List Value → List Value
under_wrapper p vs =
    with_level_and_order (wrapper p (pos 1)) (pos 1) (pos 0) ∷ placed_from 1 (pos 2) vs

module _ (k t : String) where
  in_run-IsOrphan : (v w : Value) → IsOrphan k t v → IsOrphan k t w → in_run (el v) (el w) ≡ true
  unfolding in_run
  in_run-IsOrphan v w (vk, vt, vl) (wk, wt, wl) = ground (arith, eq_refl k, eq_refl t)

  take_run-IsOrphan :
      (v : Value) (vs : List Value)
      → IsOrphan k t v
      → All (IsOrphan k t) vs
      → (take_run (el v) (map el vs) ≡ map el vs) × (drop_run (el v) (map el vs) ≡ [])
  unfolding take_run drop_run
  take_run-IsOrphan v [] h hs = (refl, refl)
  take_run-IsOrphan v (w ∷ vs) h (hw, hs) =
      let rest = take_run-IsOrphan v vs h hs in
      let go = in_run-IsOrphan v w h hw in (rw (go, rest.0), rw (go, rest.1))

  deepen-IsLadder :
      (prev : ℕ) (vs : List Value)
      → 1 ≤ prev
      → All (IsOrphan k t) vs
      → IsLadder (pos prev) (map (deepen (pos 1)) (map el vs))
  unfolding ◌+ℤ◌
  deepen-IsLadder prev [] low h = tt
  deepen-IsLadder prev (v ∷ vs) low ((vk, vt, vl), hs) =
      rw vl (omega arith, ground arith, deepen-IsLadder 2 vs (omega arith) hs)

  write_els-deepen :
      (order : ℕ) (vs : List Value)
      → All (IsOrphan k t) vs
      → write_els order (map (deepen (pos 1)) (map el vs)) ≡ placed_from order (pos 2) vs
  unfolding write_els placed_from ◌+ℤ◌
  write_els-deepen order [] h = refl
  write_els-deepen order (v ∷ vs) ((vk, vt, vl), hs) = rw (vl, write_els-deepen (suc order) vs hs)

  wrap_loop-nil : (n : ℕ) (stack : List Frame) → wrap_loop n stack [] ≡ []
  unfolding wrap_loop
  wrap_loop-nil zero stack = refl
  wrap_loop-nil (suc n) stack = refl

  orphan_not-satisfied :
      (v : Value)
      → IsOrphan k t v
      → (implicit_parent_of t k == "") ≡ false
      → satisfied (el v) [] ≡ false
  unfolding satisfied
  orphan_not-satisfied v (vk, vt, vl) h = rw (vk, vt) (rw h)

  wrapper_el-IsOrphan :
      (v : Value)
      → IsOrphan k t v
      → wrapper_el (el v) ≡ record {
        kind = kind_block;
        type = implicit_parent_of t k;
        level = pos 1;
        value = wrapper (implicit_parent_of t k) (pos 1);
      }
  unfolding wrapper_el shift_of ◌+ℤ◌ ◌-ℤ◌
  wrapper_el-IsOrphan v (vk, vt, vl) = rw (vk, vt, vl)

  shift_of-IsOrphan : (v : Value) → IsOrphan k t v → shift_of (el v) ≡ pos 1
  unfolding shift_of
  shift_of-IsOrphan v (vk, vt, vl) = rw vl

  wrap_orphans-fragment :
      (v : Value) (vs : List Value)
      → IsOrphan k t v
      → All (IsOrphan k t) vs
      → (implicit_parent_of t k == "") ≡ false
      → wrap_orphans (map el (v ∷ vs)) ≡ wrapper_el (el v) ∷ map (deepen (pos 1)) (map el (v ∷ vs))
  unfolding wrap_orphans wrap_loop pop_to
  wrap_orphans-fragment v vs h hs named =
      let run = take_run-IsOrphan v (v ∷ vs) h (h, hs) in
      rw (orphan_not-satisfied v h named, run.0, run.1)
        (rw (wrap_loop-nil, append-nil)
          (ap (λ s. wrapper_el (el v) ∷ map (deepen s) (map el (v ∷ vs))) (shift_of-IsOrphan v h)))

-- A run of one or more blocks of one kind and type that needs a parent, all at level 1 with no
-- parent in sight, comes out under a single new parent: the parent that the vocabulary names stands
-- first, at level 1 and order 0, and every block of the run follows at level 2, none lost, numbered
-- from 1.
pub repair_blocks_fragment :
    (k t : String) (v : Value) (vs : List Value)
    → (implicit_parent_of t k == "") ≡ false
    → IsOrphan k t v
    → All (IsOrphan k t) vs
    → repair_blocks (map some (v ∷ vs)) ≡ under_wrapper (implicit_parent_of t k) (v ∷ vs)
unfolding repair_blocks write_els
repair_blocks_fragment k t v vs named h hs =
    let wrapped =
      wrap_orphans-fragment k t v vs h hs named
      ∙ ap (λ e. e ∷ map (deepen (pos 1)) (map el (v ∷ vs))) (wrapper_el-IsOrphan k t v h) in
    let top : El = record {
      kind = kind_block;
      type = implicit_parent_of t k;
      level = pos 1;
      value = wrapper (implicit_parent_of t k) (pos 1);
    } in
    let els = top ∷ map (deepen (pos 1)) (map el (v ∷ vs)) in
    let ladder : IsLadder (pos 0) els =
      (omega arith, omega int_laws, deepen-IsLadder k t 1 (v ∷ vs) (omega arith) (h, hs)) in
    rw (read_els-some, wrapped, rebase-ladder els ladder, collapse_jumps-ladder els ladder)
      (ap (λ ws. with_level_and_order top.value (pos 1) (pos 0) ∷ ws)
        (write_els-deepen k t 1 (v ∷ vs) (h, hs)))
