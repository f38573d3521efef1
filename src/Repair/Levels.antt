-- ===== src/Repair/Levels.antt =====
-- The levels and orders that the passes of src/duck_block_repair.cpp leave.
use duckdb_panduck.Base.{
  ℕ, zero, suc, ◌≤◌, ◌≡◌, refl, inl, inr, List, [], ◌∷◌, map, Option, some, arith, if◌then◌else◌,
  length, All, Bool-cases,
}
use duckdb_panduck.Base.Int.{ℤ, pos, ◌+ℤ◌, ◌-ℤ◌, ◌≤ℤ◌, ltb_ℤ, eqb_ℤ, eqb_ℤ→eq, int_laws}
use duckdb_panduck.Repair.{
  Value, El, lift, lift_run, collapse_loop, collapse_jumps, min_level, rebase_by, rebase,
  with_level_and_order, write_els, repair_blocks, wrap_orphans, read_els,
}

abbrev pub IsDeep : El → Type 0
IsDeep e = pos 1 ≤ℤ e.level

-- No element is more than one level below the element before it, and none is above level 1.
abbrev pub IsLadder : ℤ → List El → Type 0
IsLadder prev [] = Unit
IsLadder prev (e ∷ es) = IsDeep e × (e.level ≤ℤ prev +ℤ pos 1) × IsLadder e.level es

pub length-lift_run : (l k : ℤ) (es : List El) → length (lift_run l k es) ≡ length es
unfolding lift_run
length-lift_run l k [] = refl
length-lift_run l k (x ∷ xs) = ground (arith, length-lift_run l k xs)

lift_run-IsDeep :
    (l k : ℤ) (es : List El) → pos 1 +ℤ k ≤ℤ l → All IsDeep es → All IsDeep (lift_run l k es)
unfolding lift_run
lift_run-IsDeep l k [] h d = tt
lift_run-IsDeep l k (x ∷ xs) h d = elim (Bool-cases (ltb_ℤ x.level l)) [
  | inl e ↦ rw e d
  | inr e ↦ rw e (omega int_laws, lift_run-IsDeep l k xs h d.1)
]

collapse_loop-IsLadder :
    (n : ℕ) (prev : ℤ) (es : List El)
    → length es ≤ n
    → pos 0 ≤ℤ prev
    → All IsDeep es
    → IsLadder prev (collapse_loop n prev es)
unfolding collapse_loop
collapse_loop-IsLadder zero prev [] h p d = tt
collapse_loop-IsLadder zero prev (e ∷ es) h p d = absurd (omega arith)
collapse_loop-IsLadder (suc n) prev [] h p d = tt
collapse_loop-IsLadder (suc n) prev (e ∷ es) h p d =
    let k = e.level -ℤ (prev +ℤ pos 1) in
    let run = lift_run e.level k es in
    let shorter : length run ≤ n = omega (arith, length-lift_run e.level k es) in
    elim (Bool-cases (ltb_ℤ (prev +ℤ pos 1) e.level)) [
      | inl t ↦ rw t (
        omega int_laws,
        omega int_laws,
        collapse_loop-IsLadder n (e.level -ℤ k) run shorter (omega int_laws)
            (lift_run-IsDeep e.level k es (omega int_laws) d.1),
      )
      | inr t ↦ rw t (
        d.0,
        omega int_laws,
        collapse_loop-IsLadder n e.level es (omega arith) (omega int_laws) d.1,
      )
    ]

-- Every level is at least `m`.
abbrev IsFrom : ℤ → El → Type 0
IsFrom m e = m ≤ℤ e.level

All-IsFrom : (m k : ℤ) (es : List El) → k ≤ℤ m → All (IsFrom m) es → All (IsFrom k) es
All-IsFrom m k [] h d = tt
All-IsFrom m k (e ∷ es) h d = (omega arith, All-IsFrom m k es h d.1)

-- The running minimum is below the one it started from and below every level.
min_level_bound :
    (k m : ℤ) (es : List El) → min_level (some k) es ≡ some m → (m ≤ℤ k) × All (IsFrom m) es
unfolding min_level
min_level_bound k m [] h = (ground arith, tt)
min_level_bound k m (e ∷ es) h = elim (Bool-cases (ltb_ℤ e.level k)) [
  | inl t ↦ let low = min_level_bound e.level m es (rw t at h) in (omega int_laws, (low.0, low.1))
  | inr t ↦ let low = min_level_bound k m es (rw t at h) in (low.0, (omega int_laws, low.1))
]

min_level-some : (k : ℤ) (es : List El) → (m : ℤ) × (min_level (some k) es ≡ some m)
unfolding min_level
min_level-some k [] = (k, refl)
min_level-some k (e ∷ es) = min_level-some (if ltb_ℤ e.level k then e.level else k) es

lift-IsDeep : (m : ℤ) (es : List El) → All (IsFrom m) es → All IsDeep (map (lift (m -ℤ pos 1)) es)
lift-IsDeep m [] h = tt
lift-IsDeep m (e ∷ es) h = (omega int_laws, lift-IsDeep m es h.1)

rebase_by-IsDeep : (m : ℤ) (es : List El) → All (IsFrom m) es → All IsDeep (rebase_by (some m) es)
rebase_by-IsDeep m es h = elim (Bool-cases (eqb_ℤ m (pos 1))) [
  | inl t ↦ rw t (rw (eqb_ℤ→eq m (pos 1) t) at h)
  | inr t ↦ rw t (lift-IsDeep m es h)
]

rebase-IsDeep : (es : List El) → All IsDeep (rebase es)
unfolding rebase
rebase-IsDeep [] = tt
rebase-IsDeep (e ∷ es) =
    let (m, found) = min_level-some e.level es in
    let low = min_level_bound e.level m es found in
    rw found (rebase_by-IsDeep m (e ∷ es) (low.0, low.1))

collapse_jumps-IsLadder : (es : List El) → All IsDeep es → IsLadder (pos 0) (collapse_jumps es)
unfolding collapse_jumps
collapse_jumps-IsLadder es d =
    collapse_loop-IsLadder (length es) (pos 0) es (omega arith) (omega arith) d

-- Orders count up from `order`, no level is above 1, and none is more than one below the last.
abbrev pub IsRepaired : ℕ → ℤ → List Value → Type 0
IsRepaired order prev [] = Unit
IsRepaired order prev (v ∷ vs) =
    (l : ℤ) × (v.level ≡ some l)
    × (v.element_order ≡ some (pos order))
    × (pos 1 ≤ℤ l)
    × (l ≤ℤ prev +ℤ pos 1)
    × IsRepaired (suc order) l vs

write_els-IsRepaired :
    (order : ℕ) (prev : ℤ) (es : List El)
    → IsLadder prev es
    → IsRepaired order prev (write_els order es)
unfolding write_els with_level_and_order
write_els-IsRepaired order prev [] h = tt
write_els-IsRepaired order prev (e ∷ es) h =
    (e.level, refl, refl, h.0, h.1, write_els-IsRepaired (suc order) e.level es h.2)

-- For every list of blocks, NULL entries and levels included, the repaired blocks are numbered
-- densely from 0 in list order, the first stands at level 1, no level is below 1, and no block is
-- more than one level deeper than the block before it.
pub repair_blocks-IsRepaired :
    (blocks : List (Option Value)) → IsRepaired 0 (pos 0) (repair_blocks blocks)
unfolding repair_blocks
repair_blocks-IsRepaired blocks =
    write_els-IsRepaired 0 (pos 0) _
      (collapse_jumps-IsLadder _ (rebase-IsDeep (wrap_orphans (read_els blocks))))
