-- ===== src/Rst/Runs.antt =====
-- The rule of a simple table (libpanduck/src/rst_scanner.cpp, IsSimpleSep).
use duckdb_panduck.Base.{
  ℕ, zero, suc, ◌+◌, ◌≤◌, ◌≡◌, refl, Bool, true, false, List, [], ◌∷◌, arith, length, ltb, ◌==◌,
  inl, inr, Bool-cases, if◌then◌else◌, not, ◌||◌,
}
use duckdb_panduck.Rst.{Rule, rule_end, rule_loop, simple_sep_of, is_equals, opens_with}
use duckdb_panduck.Text.Trim.{OpensSolid, drop_while-OpensSolid}
use duckdb_panduck.Text.{Bytes, take_while, drop_while}

-- The runs stand one behind the other, each of one column at least, with a gap of one column at
-- least between two of them, the first at column `low` or behind it, the last before column `high`.
pub data AreRuns (high : ℕ) : ℕ → List ℕ → List ℕ → Type 0 where
  no_runs : {low : ℕ} → AreRuns high low [] []
  a_run :
      {low i width : ℕ} {widths starts : List ℕ}
      → low ≤ i
      → 1 ≤ width
      → i + width ≤ high
      → AreRuns high (suc (i + width)) widths starts
      → AreRuns high low (width ∷ widths) (i ∷ starts)

length-run :
    (p : ℕ → Bool) (s : Bytes) → length (take_while p s) + length (drop_while p s) ≡ length s
unfolding take_while drop_while
length-run p [] = refl
length-run p (c ∷ s) =
    let rest = length-run p s in
    elim (Bool-cases (p c)) [ inl e ↦ rw e (omega arith) | inr e ↦ rw e (omega arith) ]

take_while-one : (p : ℕ → Bool) (c : ℕ) (s : Bytes) → p c ≡ true → 1 ≤ length (take_while p (c ∷ s))
unfolding take_while
take_while-one p c s h = rw h (omega arith)

abbrev pub RuleRuns : ℕ → ℕ → Rule → Type 0
RuleRuns high low r = AreRuns high low r.widths r.starts

-- What the loop finds with some fuel, from any byte on.
FindsRuns : ℕ → ℕ → Type 0
FindsRuns high fuel =
    (i : ℕ) (s : Bytes) → i + length s ≤ high → RuleRuns high i (rule_loop fuel i s)

-- Where no run starts at byte `i`, all runs start behind it.
FindsBehind : ℕ → ℕ → Type 0
FindsBehind high fuel =
    (i : ℕ) (s : Bytes)
    → OpensSolid is_equals s
    → i + length s ≤ high
    → RuleRuns high (suc i) (rule_loop fuel i s)

behind-step : (high fuel : ℕ) → FindsRuns high fuel → FindsBehind high (suc fuel)
unfolding FindsRuns FindsBehind rule_loop
behind-step high fuel ih i [] h k = no_runs
behind-step high fuel ih i (c ∷ s) h k =
    let gap = ih (suc i) s (omega arith) in
    rw h (if-no_runs (c == b' ') (rule_loop fuel (suc i) s) gap)
  where
    if-no_runs :
        {low : ℕ} (b : Bool) (r : Rule)
        → RuleRuns high low r
        → RuleRuns high low (if b then r else rule_end false)
    if-no_runs true r g = g
    if-no_runs false r g = no_runs

AreRuns-weaken :
    {high low : ℕ} {ws ss : List ℕ} → AreRuns high (suc low) ws ss → AreRuns high low ws ss
AreRuns-weaken no_runs = no_runs
AreRuns-weaken (a_run a b c d) = a_run (omega arith) b c d

runs-step :
    (high fuel : ℕ) → FindsRuns high fuel → FindsBehind high fuel → FindsRuns high (suc fuel)
unfolding FindsRuns FindsBehind rule_loop
runs-step high fuel ih behind i [] k = no_runs
runs-step high fuel ih behind i (c ∷ s) k =
    let w = length (take_while is_equals (c ∷ s)) in
    let sum = length-run is_equals (c ∷ s) in
    elim (Bool-cases (is_equals c)) [
      | inl e ↦
          let one = take_while-one is_equals c s e in
          rw e (
            a_run (omega arith) one (omega arith) (
              behind (i + w) (drop_while is_equals (c ∷ s))
                (drop_while-OpensSolid is_equals (c ∷ s)) (omega arith)))
      | inr e ↦ AreRuns-weaken (behind-step high fuel ih i (c ∷ s) e k)
    ]

finds : (high fuel : ℕ) → FindsRuns high fuel × FindsBehind high fuel
unfolding FindsRuns FindsBehind rule_loop
finds high zero = (λ i s k. no_runs, λ i s h k. no_runs)
finds high (suc fuel) =
    let (ih, behind) = finds high fuel in (runs-step high fuel ih behind, behind-step high fuel ih)

-- What IsSimpleSep records of a line are runs inside the line, in order, none of them empty, and at
-- least one column apart, also where it answers no.
pub simple_sep_of-AreRuns :
    (t : Bytes) → AreRuns (length t) 0 (simple_sep_of t).widths (simple_sep_of t).starts
unfolding simple_sep_of FindsRuns
simple_sep_of-AreRuns t = elim (Bool-cases (ltb (length t) 2 || not (opens_with b'=' t))) [
  | inl e ↦ rw e no_runs
  | inr e ↦ rw e ((finds (length t) (suc (length t))).0 0 t (omega arith))
]
