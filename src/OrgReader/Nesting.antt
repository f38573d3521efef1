-- ===== src/OrgReader/Nesting.antt =====
-- Every round of the loop of Builder (libpanduck/src/org.cpp) leaves blocks that fit one behind the
-- other, with the open lists among them.
use Prim.Native.String.{String}
use duckdb_panduck.Base.{
  ℕ, suc, ◌≤◌, ◌≡◌, refl, subst, ap, ◌∙◌, inl, inr, Bool, true, false, List, ◌∷◌, Option, none,
  some, arith, All,
}
use duckdb_panduck.OrgReader.Builder.{
  OrgBlock, State, org_block, depth, push, text_block, with_runs, lone_text, heading_block,
  with_title,
}
use duckdb_panduck.OrgReader.Outline.{
  above, Fits, opened, AreNested, AreOpen, depth_deep, depth_fits, AreOpen-push, kind_of,
}
use duckdb_panduck.OrgReader.Runs.{Inline, parse_inlines}
use duckdb_panduck.OrgReader.Marks.{IsLink, bare, labelled}
use duckdb_panduck.OrgReader.Spelling.{Spells, no_runs, a_text, a_link, a_run, parse_inlines-Spells}
use duckdb_panduck.Text.{Bytes}
use duckdb_panduck.Vocabulary.{kind_block, type_list_item, implicit_parent_of, type_heading}

abbrev pub AreAt : ℕ → List Inline → Type 0
AreAt level runs = All (λ r. r.level ≡ level) runs

IsLink-level : (level : ℕ) (r : Inline) (s : Bytes) → IsLink level r s → r.level ≡ level
IsLink-level level r s (bare body) = refl
IsLink-level level r s (labelled href label) = refl

Spells-AreAt :
    (level : ℕ) (b : Bool) (runs : List Inline) (s : Bytes)
    → Spells level b runs s
    → AreAt level runs
Spells-AreAt level b runs s no_runs = tt
Spells-AreAt level b runs s (a_text {runs = rs} {s = t} text ne h) =
    (refl, Spells-AreAt level true rs t h)
Spells-AreAt level b runs s (a_link {runs = rs} {link = r} {body = w} {s = t} l h) =
    (IsLink-level level r w l, Spells-AreAt level false rs t h)
Spells-AreAt level b runs s (a_run {runs = rs} {s = t} c content m ne h) =
    (refl, Spells-AreAt level false rs t h)

parse_inlines-AreAt : (s : Bytes) (level : ℕ) → AreAt level (parse_inlines s level)
parse_inlines-AreAt s level =
    Spells-AreAt level false (parse_inlines s level) s (parse_inlines-Spells s level)

-- The blocks of a state fit, and its lists are open among them.
pub record IsNested (st : State) : Type 0 where
  pub nested : AreNested st.blocks
  pub lists : AreOpen (opened st.blocks) st.lists

-- Where a block of level `level` may come next.
pub push-IsNested :
    (b : OrgBlock) (st : State)
    → depth st.lists ≤ b.level
    → Fits (opened st.blocks) b
    → IsNested st
    → IsNested (push b st)
unfolding opened
push-IsNested b st deep fits h = record {
  nested = (fits, h.nested);
  lists = AreOpen-push (above b) (opened st.blocks) st.lists deep h.lists;
}

-- A block of this type on this level, with its runs one deeper.
pub record IsOf (type : String) (level : ℕ) (b : OrgBlock) : Type 0 where
  pub of_block : kind_of b ≡ kind_block
  pub of_type : b.element_type ≡ type
  pub at_level : b.level ≡ level
  pub runs : AreAt (suc level) b.inlines

with_runs-IsOf :
    (type role : String) (level : ℕ) (runs : List Inline) (o : Option Bytes)
    → AreAt (suc level) runs
    → IsOf type level (with_runs (record (org_block type level) { role = role }) runs o)
with_runs-IsOf type role level runs none h = record {
  of_block = refl;
  of_type = refl;
  at_level = refl;
  runs = h;
}
with_runs-IsOf type role level runs (some t) h = record {
  of_block = refl;
  of_type = refl;
  at_level = refl;
  runs = tt;
}

pub text_block-IsOf :
    (type : String) (text : Bytes) (level : ℕ) (role : String)
    → IsOf type level (text_block type text level role)
unfolding text_block
text_block-IsOf type text level role =
    let runs = parse_inlines text (suc level) in
    with_runs-IsOf type role level runs (lone_text runs) (parse_inlines-AreAt text (suc level))

with_title-IsOf :
    (n : ℕ) (runs : List Inline) (o : Option Bytes)
    → AreAt 2 runs
    → IsOf type_heading 1
        (with_title (record (org_block type_heading 1) { heading_level = n }) runs o)
with_title-IsOf n runs none h = record {
  of_block = refl;
  of_type = refl;
  at_level = refl;
  runs = h;
}
with_title-IsOf n runs (some t) h = record {
  of_block = refl;
  of_type = refl;
  at_level = refl;
  runs = tt;
}

pub heading_block-IsOf : (n : ℕ) (text : Bytes) → IsOf type_heading 1 (heading_block n text)
unfolding heading_block
heading_block-IsOf n text =
    let runs = parse_inlines text 2 in
    with_title-IsOf n runs (lone_text runs) (parse_inlines-AreAt text 2)

-- A block of a type that needs no parent, on the level of the next block.
pub push_free-IsNested :
    (type : String) (b : OrgBlock) (st : State)
    → IsOf type (depth st.lists) b
    → implicit_parent_of type kind_block ≡ ""
    → IsNested st
    → IsNested (push b st)
push_free-IsNested type b st shape free h =
    push-IsNested b st (omega (arith, shape.at_level))
      (record {
        deep = omega (arith, depth_deep st.lists, shape.at_level);
        step = omega (arith, depth_fits (opened st.blocks) st.lists h.lists, shape.at_level);
        outer = rw shape.of_block refl;
        placed = inl (rw (shape.of_block, shape.of_type) free);
        inner = rw shape.at_level shape.runs;
      })
      h

-- An item, where a list is open.
pub push_item-IsNested :
    (b : OrgBlock) (st : State) (l : ℕ × ℕ) (ls : List (ℕ × ℕ))
    → st.lists ≡ l ∷ ls
    → IsOf type_list_item (depth st.lists) b
    → IsNested st
    → IsNested (push b st)
push_item-IsNested b st l ls e shape h =
    let (level, near, list, rest) = subst (AreOpen (opened st.blocks)) e h.lists in
    let deep : b.level ≡ suc l.1 = shape.at_level ∙ ap depth e in
    push-IsNested b st (omega (arith, shape.at_level))
      (record {
        deep = omega arith;
        step = omega arith;
        outer = rw shape.of_block refl;
        placed = inr (shape.of_block, shape.of_type, rw deep list);
        inner = rw shape.at_level shape.runs;
      })
      h
