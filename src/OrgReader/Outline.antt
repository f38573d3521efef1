-- ===== src/OrgReader/Outline.antt =====
-- The shape that the blocks of a reader (libpanduck/src/org.cpp) are to have: levels from 1 with no
-- jump, and a list above every item.
use Prim.Native.String.{String}
use text.Mathlib.Text.{◌==◌}
use duckdb_panduck.Base.{
  ℕ, suc, ◌≤◌, ◌≡◌, refl, sym, subst, ◌⊎◌, inl, inr, false, List, [], ◌∷◌, ltb, arith, All,
  Bool-cases, if◌then◌else◌,
}
use duckdb_panduck.OrgReader.Builder.{OrgBlock, depth}
use duckdb_panduck.OrgReader.Rows.{is_set}
use duckdb_panduck.OrgReader.Runs.{Inline}
use duckdb_panduck.Vocabulary.{
  kind_block, kind_inline, type_list, type_list_item, implicit_parent_of,
}

-- What the levels say of a block above others.
pub record Above : Type 0 where
  pub level : ℕ
  pub kind : String
  pub type : String

abbrev pub kind_of : OrgBlock → String
kind_of b = if is_set b.kind then b.kind else kind_block

abbrev pub above : OrgBlock → Above
above b = record { level = b.level; kind = kind_of b; type = b.element_type }

-- The blocks above a block of this level.
unfoldable pub below : ℕ → List Above → List Above
below level [] = []
below level (f ∷ fs) = if ltb f.level level then f ∷ fs else below level fs

abbrev pub top : List Above → ℕ
top [] = 0
top (f ∷ fs) = f.level

abbrev pub IsList : Above → Type 0
IsList f = (f.kind ≡ kind_block) × (f.type ≡ type_list)

abbrev pub HasList : List Above → Type 0
HasList [] = ⊥
HasList (f ∷ fs) = IsList f ⊎ HasList fs

-- A block that needs no parent, or an item with a list above it.
abbrev pub IsPlaced : OrgBlock → List Above → Type 0
IsPlaced b fs =
    (implicit_parent_of b.element_type (kind_of b) ≡ "")
    ⊎ ((kind_of b ≡ kind_block) × (b.element_type ≡ type_list_item) × HasList fs)

-- Block `b` stands well behind blocks of which `fs` are still open.
pub record Fits (fs : List Above) (b : OrgBlock) : Type 0 where
  pub deep : 1 ≤ b.level
  pub step : b.level ≤ suc (top fs)
  pub outer : (kind_of b == kind_inline) ≡ false
  pub placed : IsPlaced b (below b.level fs)
  pub inner : All (λ (r : Inline). r.level ≡ suc b.level) b.inlines

-- The blocks that are open behind these, newest first.
unfoldable pub opened : List OrgBlock → List Above
opened [] = []
opened (b ∷ bs) = above b ∷ below b.level (opened bs)

-- Blocks that fit one behind the other, newest first.
abbrev pub AreNested : List OrgBlock → Type 0
AreNested [] = Unit
AreNested (b ∷ bs) = Fits (opened bs) b × AreNested bs

-- The open lists, innermost first: each on the level under the next one, and a list in the blocks.
abbrev pub AreOpen : List Above → List (ℕ × ℕ) → Type 0
AreOpen fs [] = Unit
AreOpen fs (l ∷ ls) =
    (l.1 ≡ depth ls) × (l.1 ≤ top fs) × HasList (below (suc l.1) fs) × AreOpen fs ls

pub depth_deep : (ls : List (ℕ × ℕ)) → 1 ≤ depth ls
depth_deep [] = omega arith
depth_deep (l ∷ ls) = omega arith

pub depth_fits : (fs : List Above) (ls : List (ℕ × ℕ)) → AreOpen fs ls → depth ls ≤ suc (top fs)
depth_fits fs [] h = omega arith
depth_fits fs (l ∷ ls) (level, near, list, rest) = omega arith

-- A level closes all that a deeper one does.
below-below : (l k : ℕ) (fs : List Above) → l ≤ k → below l (below k fs) ≡ below l fs
unfolding below
below-below l k [] h = refl
below-below l k (f ∷ fs) h = elim (Bool-cases (ltb f.level k)) [
  | inl e ↦ rw e refl
  | inr e ↦ let g : ltb f.level l ≡ false = ground arith in rw (e, g) (below-below l k fs h)
]

-- A block under all open lists leaves them open.
pub AreOpen-push :
    (f : Above) (fs : List Above) (ls : List (ℕ × ℕ))
    → depth ls ≤ f.level
    → AreOpen fs ls
    → AreOpen (f ∷ below f.level fs) ls
unfolding below
AreOpen-push f fs [] h open_lists = tt
AreOpen-push f fs (l ∷ ls) h (level, near, list, rest) =
    let g : ltb f.level (suc l.1) ≡ false = ground arith in
    (
      level,
      omega arith,
      rw g (subst HasList (sym (below-below (suc l.1) f.level fs h)) list),
      AreOpen-push f fs ls (omega arith) rest,
    )
