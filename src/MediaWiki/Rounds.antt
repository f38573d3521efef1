-- ===== src/MediaWiki/Rounds.antt =====
-- The rounds of the loop over a MediaWiki document (libpanduck/src/mediawiki_scanner.cpp).
use duckdb_panduck.Base.{
  ◌≤◌, ◌≡◌, refl, ap, List, [], ◌∷◌, ◌++◌, arith, length, inl, inr, ◌⊎◌, Bool-cases,
}
use duckdb_panduck.Base.Int.{ℤ, pos, ◌+ℤ◌, ltb_ℤ, ◌≤ℤ◌, ◌<ℤ◌, not-ltb_ℤ→le, ltb_ℤ→lt}
use duckdb_panduck.MediaWiki.Markup.{brace_delta}
use duckdb_panduck.MediaWiki.{gather, html_loop, is_found}
use duckdb_panduck.Text.{Bytes, find_text}

-- The braces that a run of lines opens, less those that it closes.
abbrev pub total : ℤ → List Bytes → ℤ
total depth [] = depth
total depth (l ∷ ls) = total (depth +ℤ brace_delta l) ls

abbrev pub glued : (Bytes → Bytes) → Bytes → List Bytes → Bytes
glued f acc [] = acc
glued f acc (l ∷ ls) = glued f (acc ++ (b'\n' ∷ f l)) ls

-- Before each of these lines a brace is open.
abbrev pub IsOpen : ℤ → List Bytes → Type 0
IsOpen depth [] = Unit
IsOpen depth (l ∷ ls) = (pos 0 <ℤ depth) × IsOpen (depth +ℤ brace_delta l) ls

-- What `gather` takes of the lines and what it leaves.
pub record IsGathered (f : Bytes → Bytes) (ls : List Bytes) (depth : ℤ) (acc : Bytes)
    (r : Bytes × List Bytes) : Type 0 where
  pub taken : List Bytes
  pub parts : ls ≡ taken ++ r.1
  pub texts : r.0 ≡ glued f acc taken
  pub needed : IsOpen depth taken
  pub balanced : (r.1 ≡ []) ⊎ (total depth taken ≤ℤ pos 0)

-- A call that spans lines is taken whole: the lines taken stand in front of those that are left, the
-- text is made of them in their order, a brace is still open before each line that is taken, and
-- either no brace is open behind the last of them, or no line is left.
pub gather-IsGathered :
    (f : Bytes → Bytes) (ls : List Bytes) (depth : ℤ) (acc : Bytes)
    → IsGathered f ls depth acc (gather f ls depth acc)
unfolding gather
gather-IsGathered f [] depth acc = record {
  taken = [];
  parts = refl;
  texts = refl;
  needed = tt;
  balanced = inl refl;
}
gather-IsGathered f (l ∷ ls) depth acc =
    let more = gather-IsGathered f ls (depth +ℤ brace_delta l) (acc ++ (b'\n' ∷ f l)) in
    elim (Bool-cases (ltb_ℤ (pos 0) depth)) [
      | inl e ↦ rw e (record {
        taken = l ∷ more.taken;
        parts = ap (λ xs. l ∷ xs) more.parts;
        texts = more.texts;
        needed = (ltb_ℤ→lt (pos 0) depth e, more.needed);
        balanced = more.balanced;
      })
      | inr e ↦ rw e (record {
        taken = [];
        parts = refl;
        texts = refl;
        needed = tt;
        balanced = inr (not-ltb_ℤ→le (pos 0) depth e);
      })
    ]

pub gather_left :
    (f : Bytes → Bytes) (ls : List Bytes) (depth : ℤ) (acc : Bytes)
    → length (gather f ls depth acc).1 ≤ length ls
unfolding gather
gather_left f [] depth acc = omega arith
gather_left f (l ∷ ls) depth acc =
    let rest = gather_left f ls (depth +ℤ brace_delta l) (acc ++ (b'\n' ∷ f l)) in
    elim (Bool-cases (ltb_ℤ (pos 0) depth)) [
      | inl e ↦ rw e (omega arith)
      | inr e ↦ rw e (omega arith)
    ]

pub html_loop_keeps :
    (close : Bytes) (ls : List Bytes) (acc : Bytes) → length (html_loop close ls acc).1 ≤ length ls
unfolding html_loop
html_loop_keeps close [] acc = omega arith
html_loop_keeps close (l ∷ ls) acc =
    let rest = html_loop_keeps close ls (acc ++ (b'\n' ∷ l)) in
    elim (Bool-cases (is_found (find_text close acc))) [
      | inl e ↦ rw e (omega arith)
      | inr e ↦ rw e (omega arith)
    ]
