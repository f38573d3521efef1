-- ===== src/Repair/Whole.antt =====
-- src/duck_block_repair.cpp on a whole document: nothing changes.
use duckdb_panduck.Base.{
  ℕ, zero, suc, ◌≡◌, refl, ap, ◌∙◌, inl, inr, true, List, [], ◌∷◌, map, some, arith, length,
  Bool-cases,
}
use duckdb_panduck.Base.Int.{ℤ, pos, ◌+ℤ◌, ltb_ℤ, eq_of_parts, int_laws}
use duckdb_panduck.Repair.Levels.{IsLadder, IsRepaired}
use duckdb_panduck.Repair.{
  Value, El, Frame, el, collapse_loop, collapse_jumps, rebase, min_level, satisfied, pop_to, frame,
  wrap_loop, wrap_orphans, with_level_and_order, read_els, write_els, repair_blocks,
}

-- Every element finds the ancestor that it requires on the stack of those above it.
abbrev pub IsPlaced : List Frame → List El → Type 0
IsPlaced stack [] = Unit
IsPlaced stack (e ∷ es) =
    (satisfied e (pop_to e.level stack) ≡ true) × IsPlaced (frame e ∷ pop_to e.level stack) es

wrap_loop-IsPlaced :
    (n : ℕ) (stack : List Frame) (es : List El) → IsPlaced stack es → wrap_loop n stack es ≡ es
unfolding wrap_loop
wrap_loop-IsPlaced zero stack es h = refl
wrap_loop-IsPlaced (suc n) stack [] h = refl
wrap_loop-IsPlaced (suc n) stack (e ∷ es) h =
    rw (h.0, wrap_loop-IsPlaced n (frame e ∷ pop_to e.level stack) es h.1)

collapse_loop-ladder :
    (n : ℕ) (prev : ℤ) (es : List El) → IsLadder prev es → collapse_loop n prev es ≡ es
unfolding collapse_loop
collapse_loop-ladder zero prev es h = refl
collapse_loop-ladder (suc n) prev [] h = refl
collapse_loop-ladder (suc n) prev (e ∷ es) h = elim (Bool-cases (ltb_ℤ (prev +ℤ pos 1) e.level)) [
  | inl t ↦ absurd (omega int_laws)
  | inr t ↦ rw (t, collapse_loop-ladder n e.level es h.2)
]

min_level-one :
    (prev : ℤ) (es : List El) → IsLadder prev es → min_level (some (pos 1)) es ≡ some (pos 1)
unfolding min_level
min_level-one prev [] h = refl
min_level-one prev (e ∷ es) h = elim (Bool-cases (ltb_ℤ e.level (pos 1))) [
  | inl t ↦ absurd (omega int_laws)
  | inr t ↦ rw (t, min_level-one e.level es h.2)
]

pub rebase-ladder : (es : List El) → IsLadder (pos 0) es → rebase es ≡ es
unfolding rebase min_level
rebase-ladder [] h = refl
rebase-ladder (e ∷ es) h =
    let one : e.level ≡ pos 1 = eq_of_parts e.level (pos 1) (omega int_laws) in
    rw (ap (λ l. min_level (some l) es) one ∙ min_level-one e.level es h.2)

pub collapse_jumps-ladder : (es : List El) → IsLadder (pos 0) es → collapse_jumps es ≡ es
unfolding collapse_jumps
collapse_jumps-ladder es h = collapse_loop-ladder (length es) (pos 0) es h

pub read_els-some : (vs : List Value) → read_els (map some vs) ≡ map el vs
unfolding read_els
read_els-some [] = refl
read_els-some (v ∷ vs) = rw (read_els-some vs)

IsRepaired-IsLadder :
    (order : ℕ) (prev : ℤ) (vs : List Value) → IsRepaired order prev vs → IsLadder prev (map el vs)
IsRepaired-IsLadder order prev [] h = tt
IsRepaired-IsLadder order prev (v ∷ vs) (l, level, rank, low, high, rest) =
    rw level (low, high, IsRepaired-IsLadder (suc order) l vs rest)

write_els-repaired :
    (order : ℕ) (prev : ℤ) (vs : List Value)
    → IsRepaired order prev vs
    → write_els order (map el vs) ≡ vs
unfolding write_els with_level_and_order
write_els-repaired order prev [] h = refl
write_els-repaired order prev (v ∷ vs) (l, level, rank, low, high, rest) =
    ground (arith, write_els-repaired (suc order) l vs rest)

-- A list of blocks that is numbered densely from 0, has levels from 1 with no jump, and has every
-- required ancestor in place comes back unchanged.
pub repair_blocks_whole :
    (vs : List Value)
    → IsRepaired 0 (pos 0) vs
    → IsPlaced [] (map el vs)
    → repair_blocks (map some vs) ≡ vs
unfolding repair_blocks wrap_orphans
repair_blocks_whole vs h placed =
    let ladder = IsRepaired-IsLadder 0 (pos 0) vs h in
    rw
      (
        read_els-some,
        wrap_loop-IsPlaced (length (map el vs)) [] (map el vs) placed,
        rebase-ladder (map el vs) ladder,
        collapse_jumps-ladder (map el vs) ladder,
      )
      (write_els-repaired 0 (pos 0) vs h)
