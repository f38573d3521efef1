-- ===== src/Repair.antt =====
-- src/duck_block_repair.cpp: the four passes over a list of duck_blocks. `Value` is a struct of the
-- seven columns, each of which may be NULL. Levels are integers: an `int32_t` that overflows is
-- undefined in the source.
pub mod Content
pub mod Fragment
pub mod Levels
pub mod Whole
use Prim.Native.String.{String}
use text.Mathlib.Text.{◌==◌}
use duckdb_panduck.Base.{
  ℕ, zero, suc, ◌+◌, Bool, true, false, ◌&&◌, ◌||◌, not, List, [], ◌∷◌, ◌++◌, map, Option, none,
  some, if◌then◌else◌, length,
}
use duckdb_panduck.Base.Int.{ℤ, pos, negsuc, ◌+ℤ◌, ◌-ℤ◌, ltb_ℤ, eqb_ℤ}
use duckdb_panduck.Vocabulary.{
  kind_block, kind_inline, type_list, implicit_parent_of, requires_ancestor,
}

-- One duck_block struct value.
pub record Value : Type 0 where
  pub kind : Option String
  pub element_type : Option String
  pub content : Option String
  pub level : Option ℤ
  pub encoding : Option String
  pub attributes : Option (List (String × String))
  pub element_order : Option ℤ

-- The working copy: `value` carries every other field.
pub record El : Type 0 where
  pub kind : String
  pub type : String
  pub level : ℤ
  pub value : Value

pub record Frame : Type 0 where
  pub level : ℤ
  pub kind : String
  pub type : String

abbrev pub field : Option String → String
field none = ""
field (some s) = s

abbrev pub int_field : Option ℤ → ℤ → ℤ
int_field none def = def
int_field (some n) def = n

unfoldable pub with_level_and_order : Value → ℤ → ℤ → Value
with_level_and_order v level order = record v { level = some level; element_order = some order }

-- The block that a run of orphans is put under.
unfoldable pub wrapper : String → ℤ → Value
wrapper type level = record {
  kind = some kind_block;
  element_type = some type;
  content = some "";
  level = some level;
  encoding = some "text";
  attributes = some (if type == type_list then ("list_type", "bullet") ∷ [] else []);
  element_order = some (pos 0);
}

-- The loop of `Satisfied` over the stack.
unfoldable pub any_ancestor : El → List Frame → Bool
any_ancestor e [] = false
any_ancestor e (f ∷ fs) =
    (if e.kind == kind_inline
      then not (f.kind == kind_inline)
      else f.kind == kind_block && requires_ancestor e.type e.kind f.type)
    || any_ancestor e fs

-- The innermost frame stands first; the loop of the source looks for any, in no order.
unfoldable pub satisfied : El → List Frame → Bool
unfolding any_ancestor
satisfied e stack = implicit_parent_of e.type e.kind == "" || any_ancestor e stack

-- `while (stack.back().level >= e.level) stack.pop_back()`; the back stands first.
unfoldable pub pop_to : ℤ → List Frame → List Frame
pop_to level [] = []
pop_to level (f ∷ fs) = if ltb_ℤ f.level level then f ∷ fs else pop_to level fs

abbrev pub frame : El → Frame
frame e = record { level = e.level; kind = e.kind; type = e.type }

-- Does `x` continue the run that the orphan `e` starts?
unfoldable pub in_run : El → El → Bool
in_run e x =
    eqb_ℤ x.level e.level
      && (if e.kind == kind_inline
          then x.kind == kind_inline
          else x.kind == e.kind && x.type == e.type)
    || ltb_ℤ e.level x.level

-- The elements from `i` to `j`, and those from `j` on.
unfoldable pub take_run : El → List El → List El
take_run e [] = []
take_run e (x ∷ xs) = let rest = take_run e xs in if in_run e x then x ∷ rest else []

unfoldable pub drop_run : El → List El → List El
drop_run e [] = []
drop_run e (x ∷ xs) = let rest = drop_run e xs in if in_run e x then rest else x ∷ xs

unfoldable pub shift_of : El → ℤ
shift_of e = if ltb_ℤ (pos 1) e.level then pos 0 else pos 1

unfoldable pub wrapper_el : El → El
unfolding shift_of
wrapper_el e =
    let type = implicit_parent_of e.type e.kind in
    let level = e.level -ℤ pos 1 +ℤ shift_of e in
    record { kind = kind_block; type = type; level = level; value = wrapper type level }

abbrev pub deepen : ℤ → El → El
deepen shift x = record x { level = x.level +ℤ shift }

-- The loop of `WrapOrphans` from element `i` on; each round takes at least one element.
unfoldable pub wrap_loop : ℕ → List Frame → List El → List El
wrap_loop zero stack els = els
wrap_loop (suc n) stack [] = []
wrap_loop (suc n) stack (e ∷ es) =
    let stack' = pop_to e.level stack in
    let kept = e ∷ wrap_loop n (frame e ∷ stack') es in
    let wrapped =
      wrapper_el e
      ∷ (map (deepen (shift_of e)) (take_run e (e ∷ es))
          ++ wrap_loop n (frame (wrapper_el e) ∷ stack') (drop_run e (e ∷ es))) in
    if satisfied e stack' then kept else wrapped

unfoldable pub wrap_orphans : List El → List El
unfolding wrap_loop
wrap_orphans els = wrap_loop (length els) [] els

-- `seen` and `min_level`, as an option.
unfoldable pub min_level : Option ℤ → List El → Option ℤ
min_level m [] = m
min_level none (e ∷ es) = min_level (some e.level) es
min_level (some k) (e ∷ es) = min_level (some (if ltb_ℤ e.level k then e.level else k)) es

abbrev pub lift : ℤ → El → El
lift k e = record e { level = e.level -ℤ k }

abbrev rebase_by : Option ℤ → List El → List El
rebase_by none els = els
rebase_by (some m) els = if eqb_ℤ m (pos 1) then els else map (lift (m -ℤ pos 1)) els

unfoldable pub rebase : List El → List El
unfolding min_level
rebase els = rebase_by (min_level none els) els

-- The inner loop of `CollapseJumps`, up to the first element shallower than `l`.
unfoldable pub lift_run : ℤ → ℤ → List El → List El
lift_run l excess [] = []
lift_run l excess (x ∷ xs) =
    let rest = lift_run l excess xs in if ltb_ℤ x.level l then x ∷ xs else lift excess x ∷ rest

-- The outer loop from element `i` on, with the level of the element before it.
unfoldable pub collapse_loop : ℕ → ℤ → List El → List El
collapse_loop zero prev els = els
collapse_loop (suc n) prev [] = []
collapse_loop (suc n) prev (e ∷ es) =
    let excess = e.level -ℤ (prev +ℤ pos 1) in
    let e' = lift excess e in
    let jumped = e' ∷ collapse_loop n e'.level (lift_run e.level excess es) in
    let level = e ∷ collapse_loop n e.level es in
    if ltb_ℤ (prev +ℤ pos 1) e.level then jumped else level

unfoldable pub collapse_jumps : List El → List El
unfolding collapse_loop lift_run
collapse_jumps els = collapse_loop (length els) (pos 0) els

-- The first loop of `RepairBlocks`: NULL entries are dropped.
abbrev pub el : Value → El
el v = record {
  kind = field v.kind;
  type = field v.element_type;
  level = int_field v.level (pos 1);
  value = v;
}

unfoldable pub read_els : List (Option Value) → List El
read_els [] = []
read_els (none ∷ vs) = read_els vs
read_els (some v ∷ vs) = el v ∷ read_els vs

-- The last loop: the order is dense from `order`.
unfoldable pub write_els : ℕ → List El → List Value
write_els order [] = []
write_els order (e ∷ es) =
    with_level_and_order e.value e.level (pos order) ∷ write_els (suc order) es

unfoldable pub repair_blocks : List (Option Value) → List Value
repair_blocks blocks = write_els 0 (collapse_jumps (rebase (wrap_orphans (read_els blocks))))
