-- ===== src/Latex/Tokenizer/Prose.antt =====
-- Prose in `Tokenize` of libpanduck/src/latex_tokenizer.cpp: one run that keeps its spelling.
use duckdb_panduck.Base.{
  ℕ, zero, suc, ◌≤◌, ◌≡◌, ◌≢◌, refl, sym, ap, ◌∙◌, inl, inr, Bool, true, false, not, ◌||◌, [], ◌∷◌,
  ◌++◌, arith, length, drop, ◌==◌, if◌then◌else◌, Bool-cases, All, append_assoc, append-nil,
}
use duckdb_panduck.Latex.Math.{append-drop-starts_with}
use duckdb_panduck.Latex.Token.{Token, token, text, end}
use duckdb_panduck.Latex.Tokenizer.{
  Step, flush, step_prose, step_plain, step, tokenize_loop, tokenize,
}
use duckdb_panduck.Latex.Tokenizer.Stream.{length-step}
use duckdb_panduck.Text.Same.{same_eq}
use duckdb_panduck.Text.{Bytes, codes, same, empty, starts_with}

-- A byte that opens no construct but, perhaps, a ligature.
abbrev pub is_prose : ℕ → Bool
is_prose c = not (c == b'\\' || c == b'{' || c == b'}' || c == b'%' || c == b'\n' || c == b'$')

abbrev pub IsProse : Bytes → Type 0
IsProse s = All (λ c. is_prose c ≡ true) s

-- The source spelling of a run.
abbrev pub spelling : Token → Bytes
spelling t = if empty t.raw then t.text else t.raw

drop-IsProse : (n : ℕ) (s : Bytes) → IsProse s → IsProse (drop n s)
drop-IsProse zero s h = h
drop-IsProse (suc n) [] h = tt
drop-IsProse (suc n) (c ∷ s) h = drop-IsProse n s h.1

-- What a round over prose keeps: nothing is emitted, the run grows, and the spelling with the rest
-- is what it was.
record Keeps (raw s : Bytes) (next : Step) : Type 0 where
  emits : next.emitted ≡ []
  grows : next.run ≢ []
  spells : next.raw ++ next.rest ≡ raw ++ s
  leaves : IsProse next.rest

append_cons-ne-nil : (s : Bytes) (c : ℕ) (t : Bytes) → s ++ c ∷ t ≢ []
append_cons-ne-nil [] c t = cc
append_cons-ne-nil (d ∷ s) c t = cc

regroup :
    (raw p s : Bytes) (c : ℕ)
    → starts_with p s ≡ true
    → (raw ++ (c ∷ p)) ++ drop (length p) s ≡ raw ++ (c ∷ s)
regroup raw p s c h =
    append_assoc raw (c ∷ p) (drop (length p) s)
    ∙ ap (λ t. raw ++ (c ∷ t)) (sym (append-drop-starts_with p s h))

step_prose-Keeps :
    (run raw : Bytes) (c : ℕ) (s : Bytes) → IsProse s → Keeps raw (c ∷ s) (step_prose run raw c s)
unfolding step_prose
step_prose-Keeps run raw c s h = ground (
  arith,
  regroup raw (codes "--") s b'-',
  regroup raw (codes "-") s b'-',
  regroup raw (codes "`") s b'`',
  regroup raw (39 ∷ []) s 39,
  append_assoc raw (c ∷ []) s,
  append_assoc raw (b'~' ∷ []) s,
  drop-IsProse 2 s h,
  drop-IsProse 1 s h,
  append_cons-ne-nil run 0xE2 (0x80 ∷ 0x94 ∷ []),
  append_cons-ne-nil run 0xE2 (0x80 ∷ 0x93 ∷ []),
  append_cons-ne-nil run 0xE2 (0x80 ∷ 0x9C ∷ []),
  append_cons-ne-nil run 0xE2 (0x80 ∷ 0x9D ∷ []),
  append_cons-ne-nil run 0xC2 (0xA0 ∷ []),
  append_cons-ne-nil run c [],
)

step-is_prose :
    (run raw : Bytes) (c : ℕ) (s : Bytes)
    → is_prose c ≡ true
    → step run raw c s ≡ step_prose run raw c s
unfolding step step_plain
step-is_prose run raw c [] h = ground arith
step-is_prose run raw c (d ∷ s) h = ground arith

tokenize_loop-IsProse :
    (n : ℕ) (run raw s : Bytes)
    → length s ≤ n
    → run ≢ []
    → IsProse s
    → (r : Bytes) × (tokenize_loop n run raw s ≡ flush r (raw ++ s) ++ token end [] false ∷ [])
      × (r ≢ [])
unfolding tokenize_loop
tokenize_loop-IsProse n run raw [] h ne prose = (run, rw append-nil, ne)
tokenize_loop-IsProse zero run raw (c ∷ s) h ne prose = absurd (omega arith)
tokenize_loop-IsProse (suc n) run raw (c ∷ s) h ne prose =
    let next = step run raw c s in
    let shorter = length-step run raw c s in
    let keeps : Keeps raw (c ∷ s) next =
      rw (step-is_prose run raw c s prose.0) (step_prose-Keeps run raw c s prose.1) in
    let (r, e, full) =
      tokenize_loop-IsProse n next.run next.raw next.rest (omega arith) keeps.grows keeps.leaves in
    (
      r,
      ap (λ ts. ts ++ tokenize_loop n next.run next.raw next.rest) keeps.emits
          ∙ e
          ∙ ap (λ t. flush r t ++ token end [] false ∷ []) keeps.spells,
      full,
    )

-- The flushed run, with its spelling.
flush-spelling :
    (r raw : Bytes)
    → r ≢ []
    → raw ≢ []
    → (t : Token) × (flush r raw ≡ t ∷ []) × (t.kind ≡ text) × (spelling t ≡ raw)
flush-spelling [] raw h k = absurd (h refl)
flush-spelling (c ∷ r) [] h k = absurd (k refl)
flush-spelling (c ∷ r) (d ∷ raw) h k = elim (Bool-cases (same (d ∷ raw) (c ∷ r))) [
  | inl e ↦ (token text (c ∷ r) false, rw e, refl, sym (same_eq (d ∷ raw) (c ∷ r) e))
  | inr e ↦
      (record { kind = text; text = c ∷ r; display_math = false; raw = d ∷ raw }, rw e, refl, refl)
]

-- A source that is not empty and holds no backslash, brace, percent sign, dollar or newline is a
-- single text token whose source spelling is the source, byte for byte, whatever ligatures were
-- resolved in it.
pub tokenize-IsProse :
    (src : Bytes)
    → src ≢ []
    → IsProse src
    → (t : Token) × (tokenize src ≡ t ∷ token end [] false ∷ [])
      × (t.kind ≡ text)
      × (spelling t ≡ src)
unfolding tokenize tokenize_loop
tokenize-IsProse [] h prose = absurd (h refl)
tokenize-IsProse (c ∷ s) h prose =
    let next = step [] [] c s in
    let keeps : Keeps [] (c ∷ s) next =
      rw (step-is_prose [] [] c s prose.0) (step_prose-Keeps [] [] c s prose.1) in
    let (r, e, full) =
      tokenize_loop-IsProse (length s) next.run next.raw next.rest (length-step [] [] c s)
        keeps.grows keeps.leaves in
    let (t, flushed, kind, spelt) = flush-spelling r (c ∷ s) full (λ x. h x) in
    (
      t,
      ap (λ ts. ts ++ tokenize_loop (length s) next.run next.raw next.rest) keeps.emits
          ∙ e
          ∙ ap (λ x. flush r x ++ token end [] false ∷ []) keeps.spells
          ∙ ap (λ ts. ts ++ token end [] false ∷ []) flushed,
      kind,
      spelt,
    )
