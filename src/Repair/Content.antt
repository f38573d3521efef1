-- ===== src/Repair/Content.antt =====
-- What src/duck_block_repair.cpp keeps of the blocks, and what it adds.
use Prim.Native.String.{String}
use text.Mathlib.Text.{◌==◌}
use mathlib.Core.Path.{subst}
use duckdb_panduck.Base.{
  ℕ, zero, suc, ◌≡◌, refl, sym, ap, ◌∙◌, ◌⊎◌, inl, inr, Bool, true, false, List, [], ◌∷◌, ◌++◌, map,
  Option, none, some, arith, if◌then◌else◌, length, Bool-cases,
}
use duckdb_panduck.Base.Int.{ℤ, pos, ◌+ℤ◌, ◌-ℤ◌}
use duckdb_panduck.Vocabulary.{kind_block, type_plain, type_list, type_figure, implicit_parent_of}
use duckdb_panduck.Repair.{
  Value, El, Frame, lift, deepen, lift_run, collapse_loop, collapse_jumps, rebase, rebase_by,
  min_level, satisfied, pop_to, frame, wrapper, wrapper_el, take_run, drop_run, shift_of, wrap_loop,
  wrap_orphans, with_level_and_order, read_els, write_els, repair_blocks,
}

-- Two blocks agree in every column but `level` and `element_order`.
pub record SameColumns (v w : Value) : Type 0 where
  pub kind_eq : w.kind ≡ v.kind
  pub type_eq : w.element_type ≡ v.element_type
  pub content_eq : w.content ≡ v.content
  pub encoding_eq : w.encoding ≡ v.encoding
  pub attributes_eq : w.attributes ≡ v.attributes

-- An empty block of one of the three implicit parents, a list a bullet list.
pub record IsWrapper (w : Value) : Type 0 where
  pub kind_is : w.kind ≡ some kind_block
  pub type_is :
      (w.element_type ≡ some type_plain)
      ⊎ (w.element_type ≡ some type_list)
      ⊎ (w.element_type ≡ some type_figure)
  pub content_is : w.content ≡ some ""
  pub encoding_is : w.encoding ≡ some "text"

-- The second list is the first with wrappers put in.
pub data Woven : List Value → List Value → Type 0 where
  done : Woven [] []
  kept :
      {v w : Value} {vs ws : List Value} → SameColumns v w → Woven vs ws → Woven (v ∷ vs) (w ∷ ws)
  added : {w : Value} {vs ws : List Value} → IsWrapper w → Woven vs ws → Woven vs (w ∷ ws)

abbrev pub values : List El → List Value
values es = map (λ (e : El). e.value) es

values-lift_run : (l k : ℤ) (es : List El) → values (lift_run l k es) ≡ values es
unfolding lift_run
values-lift_run l k [] = refl
values-lift_run l k (x ∷ xs) = ground (arith, values-lift_run l k xs)

values-collapse_loop :
    (n : ℕ) (prev : ℤ) (es : List El) → values (collapse_loop n prev es) ≡ values es
unfolding collapse_loop
values-collapse_loop zero prev es = refl
values-collapse_loop (suc n) prev [] = refl
values-collapse_loop (suc n) prev (e ∷ es) =
    let k = e.level -ℤ (prev +ℤ pos 1) in
    ground (
      arith,
      values-collapse_loop n (e.level -ℤ k) (lift_run e.level k es),
      values-lift_run e.level k es,
      values-collapse_loop n e.level es,
    )

values-lift : (k : ℤ) (es : List El) → values (map (lift k) es) ≡ values es
values-lift k [] = refl
values-lift k (e ∷ es) = rw (values-lift k es)

values-rebase_by : (m : Option ℤ) (es : List El) → values (rebase_by m es) ≡ values es
values-rebase_by none es = refl
values-rebase_by (some m) es = ground (arith, values-lift (m -ℤ pos 1) es)

values-append : (xs ys : List El) → values (xs ++ ys) ≡ values xs ++ values ys
values-append [] ys = refl
values-append (x ∷ xs) ys = rw (values-append xs ys)

values-deepen : (k : ℤ) (es : List El) → values (map (deepen k) es) ≡ values es
values-deepen k [] = refl
values-deepen k (e ∷ es) = rw (values-deepen k es)

append-run : (e : El) (es : List El) → take_run e es ++ drop_run e es ≡ es
unfolding take_run drop_run
append-run e [] = refl
append-run e (x ∷ xs) = ground (arith, append-run e xs)

SameColumns-refl : (v : Value) → SameColumns v v
SameColumns-refl v = ground arith

Woven-refl : (vs : List Value) → Woven vs vs
Woven-refl [] = done
Woven-refl (v ∷ vs) = kept (SameColumns-refl v) (Woven-refl vs)

Woven-append : {vs ws xs ys : List Value} → Woven vs ws → Woven xs ys → Woven (vs ++ xs) (ws ++ ys)
Woven-append done q = q
Woven-append (kept s p) q = kept s (Woven-append p q)
Woven-append (added s p) q = added s (Woven-append p q)

IsParent : String → Type 0
IsParent s = (s ≡ type_plain) ⊎ (s ≡ type_list) ⊎ (s ≡ type_figure)

if-IsParent :
    (b : Bool) (s t : String)
    → (s ≡ "") ⊎ IsParent s
    → (t ≡ "") ⊎ IsParent t
    → ((if b then s else t) ≡ "") ⊎ IsParent (if b then s else t)
if-IsParent true s t p q = p
if-IsParent false s t p q = q

implicit_parent_of-IsParent :
    (t k : String) → (implicit_parent_of t k ≡ "") ⊎ IsParent (implicit_parent_of t k)
unfolding implicit_parent_of IsParent
implicit_parent_of-IsParent t k =
    if-IsParent _ _ _ (inr (inl refl)) (
      if-IsParent _ _ _ (inr (inr (inl refl)))
        (if-IsParent _ _ _ (inr (inr (inr refl))) (inl refl)))

implicit_parent_of-cases :
    (t k : String) → (implicit_parent_of t k == "") ≡ false → IsParent (implicit_parent_of t k)
implicit_parent_of-cases t k h = elim (implicit_parent_of-IsParent t k) [
  | inl e ↦ let same = rw e at h in cc
  | inr p ↦ p
]

wrapper_el-IsWrapper :
    (e : El) → (implicit_parent_of e.type e.kind == "") ≡ false → IsWrapper (wrapper_el e).value
unfolding wrapper wrapper_el IsParent
wrapper_el-IsWrapper e h = ground (arith, implicit_parent_of-cases e.type e.kind h)

satisfied_none :
    (e : El) (stack : List Frame)
    → satisfied e stack ≡ false
    → (implicit_parent_of e.type e.kind == "") ≡ false
unfolding satisfied
satisfied_none e stack h = ground arith

wrap_loop-Woven :
    (n : ℕ) (stack : List Frame) (es : List El) → Woven (values es) (values (wrap_loop n stack es))
unfolding wrap_loop
wrap_loop-Woven zero stack es = Woven-refl (values es)
wrap_loop-Woven (suc n) stack [] = done
wrap_loop-Woven (suc n) stack (e ∷ es) =
    let stack' = pop_to e.level stack in
    let run = take_run e (e ∷ es) in
    let rest = drop_run e (e ∷ es) in
    let deep = map (deepen (shift_of e)) run in
    elim (Bool-cases (satisfied e stack')) [
      | inl t ↦ rw t (kept (SameColumns-refl e.value) (wrap_loop-Woven n (frame e ∷ stack') es))
      | inr t ↦ rw t (
          added (wrapper_el-IsWrapper e (satisfied_none e stack' t)) (
            subst
              (λ vs. Woven vs (values (deep ++ wrap_loop n (frame (wrapper_el e) ∷ stack') rest)))
              (sym (values-append run rest) ∙ ap values (append-run e (e ∷ es)))
              (rw (values-append, values-deepen)
                (Woven-append (Woven-refl (values run))
                  (wrap_loop-Woven n (frame (wrapper_el e) ∷ stack') rest)))))
    ]

values-rebase : (es : List El) → values (rebase es) ≡ values es
unfolding rebase
values-rebase es = values-rebase_by (min_level none es) es

data Rewritten : List Value → List Value → Type 0 where
  nothing : Rewritten [] []
  written :
      {v w : Value} {vs ws : List Value}
      → SameColumns v w
      → Rewritten vs ws
      → Rewritten (v ∷ vs) (w ∷ ws)

write_els-Rewritten : (order : ℕ) (es : List El) → Rewritten (values es) (write_els order es)
unfolding write_els with_level_and_order
write_els-Rewritten order [] = nothing
write_els-Rewritten order (e ∷ es) = written (ground arith) (write_els-Rewritten (suc order) es)

SameColumns-trans : {v w x : Value} → SameColumns v w → SameColumns w x → SameColumns v x
SameColumns-trans p q = ground arith

IsWrapper-SameColumns : {v w : Value} → IsWrapper v → SameColumns v w → IsWrapper w
IsWrapper-SameColumns p q = ground arith

Woven-Rewritten : {vs ws xs : List Value} → Woven vs ws → Rewritten ws xs → Woven vs xs
Woven-Rewritten done nothing = done
Woven-Rewritten (kept s p) (written r q) = kept (SameColumns-trans s r) (Woven-Rewritten p q)
Woven-Rewritten (added s p) (written r q) = added (IsWrapper-SameColumns s r) (Woven-Rewritten p q)

-- The blocks that are not NULL.
abbrev pub non_null : List (Option Value) → List Value
non_null [] = []
non_null (none ∷ vs) = non_null vs
non_null (some v ∷ vs) = v ∷ non_null vs

values-read_els : (vs : List (Option Value)) → values (read_els vs) ≡ non_null vs
unfolding read_els
values-read_els [] = refl
values-read_els (none ∷ vs) = values-read_els vs
values-read_els (some v ∷ vs) = rw (values-read_els vs)

values-collapse_jumps : (es : List El) → values (collapse_jumps es) ≡ values es
unfolding collapse_jumps
values-collapse_jumps es = values-collapse_loop (length es) (pos 0) es

-- Repair loses no block and reorders none: the repaired list is the non-NULL blocks in their order,
-- every column but level and element_order as it was, with empty plain, list or figure blocks put in.
pub repair_blocks-Woven :
    (blocks : List (Option Value)) → Woven (non_null blocks) (repair_blocks blocks)
unfolding repair_blocks wrap_orphans
repair_blocks-Woven blocks =
    let els = read_els blocks in
    Woven-Rewritten
      (rw (values-collapse_jumps, values-rebase, ← values-read_els blocks)
        (wrap_loop-Woven (length els) [] els))
      (write_els-Rewritten 0 _)
