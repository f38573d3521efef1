-- ===== src/OrgReader/Steps.antt =====
-- The loop of Builder (libpanduck/src/org.cpp): it ends, and its blocks fit one behind the other
-- where every keyword is a field of the metadata.
use duckdb_panduck.Base.{
  ℕ, zero, suc, ◌≤◌, ◌≡◌, refl, subst, inl, inr, Bool, ◌||◌, true, List, [], ◌∷◌, arith, All,
  Bool-cases, length, reverse,
}
use duckdb_panduck.Org.{Line, LineKind}
use duckdb_panduck.OrgReader.Builder.{State, close_all, flush_paragraph, keyword, is_field}
use duckdb_panduck.OrgReader.Items.{item-IsNested}
use duckdb_panduck.OrgReader.Nesting.{IsNested}
use duckdb_panduck.OrgReader.Rounds.{
  flush_paragraph-IsNested, close_flushed-IsNested, heading-IsNested, body_blocks-IsNested,
  push_table-IsNested, simple_hr-IsNested,
}
use duckdb_panduck.OrgReader.{
  is_end, grown, block_body, is_rule, is_row, table_rows, next_rows, TableRow, ends_drawer,
  skip_drawer, step_at, step, build_loop,
}
use duckdb_panduck.Text.{Bytes}

abbrev pub names_field : LineKind → Bytes → Bool
names_field LineKind.keyword key = is_field key
names_field _ key = true

-- A keyword line is a title, an author or a date.
abbrev pub HasField : Line → Type 0
HasField l = names_field l.kind l.key ≡ true

-- What is left of the lines: no more lines, and none that was not there.
record IsRest (P : Line → Type 0) (ls rest : List Line) : Type 0 where
  shorter : length rest ≤ length ls
  kept : All P ls → All P rest

module _ (P : Line → Type 0) where
  self-IsRest : (ls : List Line) → IsRest P ls ls
  self-IsRest ls = record { shorter = omega arith; kept = λ h. h }

  cons-IsRest : (l : Line) (ls rest : List Line) → IsRest P ls rest → IsRest P (l ∷ ls) rest
  cons-IsRest l ls rest r = record { shorter = omega (arith, r.shorter); kept = λ h. r.kept h.1 }

  block_body-IsRest : (name body : Bytes) (ls : List Line) → IsRest P ls (block_body name body ls).1
  unfolding block_body
  block_body-IsRest name body [] = self-IsRest []
  block_body-IsRest name body (l ∷ ls) =
      let more = block_body-IsRest name (grown body l.text) ls in
      elim (Bool-cases (is_end name l)) [
        | inl e ↦ rw e (cons-IsRest l ls ls (self-IsRest ls))
        | inr e ↦ rw e (cons-IsRest l ls (block_body name (grown body l.text) ls).1 more)
      ]

  skip_drawer-IsRest : (ls : List Line) → IsRest P ls (skip_drawer ls)
  unfolding skip_drawer
  skip_drawer-IsRest [] = self-IsRest []
  skip_drawer-IsRest (l ∷ ls) =
      let more = skip_drawer-IsRest ls in
      elim (Bool-cases (ends_drawer l)) [
        | inl e ↦ rw e (cons-IsRest l ls ls (self-IsRest ls))
        | inr e ↦ rw e (cons-IsRest l ls (skip_drawer ls) more)
      ]

  table_rows-IsRest : (rows : List TableRow) (ls : List Line) → IsRest P ls (table_rows rows ls).1
  unfolding table_rows
  table_rows-IsRest rows [] = self-IsRest []
  table_rows-IsRest rows (l ∷ ls) =
      let rest = table_rows-IsRest (next_rows rows l) ls in
      elim (Bool-cases (is_rule l || is_row l)) [
        | inl e ↦ rw e (cons-IsRest l ls (table_rows (next_rows rows l) ls).1 rest)
        | inr e ↦ rw e (self-IsRest (l ∷ ls))
      ]

  -- A table takes the line that it starts with.
  table_first-IsRest :
      (l : Line) (ls : List Line)
      → (is_rule l || is_row l) ≡ true
      → IsRest P ls (table_rows [] (l ∷ ls)).1
  unfolding table_rows
  table_first-IsRest l ls e = rw e (table_rows-IsRest (next_rows [] l) ls)

  step-IsRest : (st : State) (l : Line) (ls : List Line) → IsRest P ls (step st l ls).1
  unfolding step_at
  step-IsRest st l ls = go l.kind refl
    where
      go : (k : LineKind) → l.kind ≡ k → IsRest P ls (step_at k st l ls).1
      go LineKind.blank e = self-IsRest ls
      go LineKind.comment e = self-IsRest ls
      go LineKind.keyword e = self-IsRest ls
      go LineKind.heading e = self-IsRest ls
      go LineKind.hrule e = self-IsRest ls
      go LineKind.block_begin e = block_body-IsRest l.key [] ls
      go LineKind.block_end e = self-IsRest ls
      go LineKind.table_row e = table_first-IsRest l ls (rw e refl)
      go LineKind.table_rule e = table_first-IsRest l ls (rw e refl)
      go LineKind.list_item e = self-IsRest ls
      go LineKind.drawer_begin e = skip_drawer-IsRest ls
      go LineKind.drawer_end e = self-IsRest ls
      go LineKind.text e = self-IsRest ls

-- The loop over the lines needs no more rounds than there are lines.
build_loop_fuel :
    (fuel more : ℕ) (st : State) (ls : List Line)
    → length ls ≤ fuel
    → fuel ≤ more
    → build_loop fuel st ls ≡ build_loop more st ls
unfolding build_loop
build_loop_fuel zero zero st ls h k = refl
build_loop_fuel zero (suc more) st [] h k = refl
build_loop_fuel zero (suc more) st (l ∷ ls) h k = absurd (omega arith)
build_loop_fuel (suc fuel) zero st ls h k = absurd (omega arith)
build_loop_fuel (suc fuel) (suc more) st [] h k = refl
build_loop_fuel (suc fuel) (suc more) st (l ∷ ls) h k =
    let rest = step-IsRest HasField st l ls in
    build_loop_fuel fuel more (step st l ls).0 (step st l ls).1 (omega (arith, rest.shorter))
      (omega arith)

keyword-IsNested :
    (l : Line) (st : State) → is_field l.key ≡ true → IsNested st → IsNested (keyword l st)
unfolding keyword
keyword-IsNested l st field h = rw field (record { nested = h.nested; lists = h.lists })

step-IsNested :
    (st : State) (l : Line) (ls : List Line) → HasField l → IsNested st → IsNested (step st l ls).0
unfolding step_at
step-IsNested st l ls field h = go l.kind refl
  where
    go : (k : LineKind) → l.kind ≡ k → IsNested (step_at k st l ls).0
    go LineKind.blank e = close_flushed-IsNested st h
    go LineKind.comment e = h
    go LineKind.keyword e =
        keyword-IsNested l (flush_paragraph st) (subst (λ k. names_field k l.key ≡ true) e field)
          (flush_paragraph-IsNested st h)
    go LineKind.heading e = heading-IsNested l (flush_paragraph st) (flush_paragraph-IsNested st h)
    go LineKind.hrule e =
        simple_hr-IsNested (close_all (flush_paragraph st)) (close_flushed-IsNested st h)
    go LineKind.block_begin e =
        body_blocks-IsNested l (block_body l.key [] ls).0 (close_all (flush_paragraph st))
          (close_flushed-IsNested st h)
    go LineKind.block_end e = h
    go LineKind.table_row e =
        push_table-IsNested (reverse (table_rows [] (l ∷ ls)).0) (close_all (flush_paragraph st))
          (close_flushed-IsNested st h)
    go LineKind.table_rule e =
        push_table-IsNested (reverse (table_rows [] (l ∷ ls)).0) (close_all (flush_paragraph st))
          (close_flushed-IsNested st h)
    go LineKind.list_item e = item-IsNested l (flush_paragraph st) (flush_paragraph-IsNested st h)
    go LineKind.drawer_begin e = h
    go LineKind.drawer_end e = h
    go LineKind.text e = record { nested = h.nested; lists = h.lists }

pub build_loop-IsNested :
    (fuel : ℕ) (st : State) (ls : List Line)
    → All HasField ls
    → IsNested st
    → IsNested (build_loop fuel st ls)
unfolding build_loop
build_loop-IsNested zero st ls fields h = h
build_loop-IsNested (suc fuel) st [] fields h = h
build_loop-IsNested (suc fuel) st (l ∷ ls) (field, fields) h =
    build_loop-IsNested fuel (step st l ls).0 (step st l ls).1
      ((step-IsRest HasField st l ls).kept fields) (step-IsNested st l ls field h)
