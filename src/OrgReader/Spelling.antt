-- ===== src/OrgReader/Spelling.antt =====
-- What ParseInlines (libpanduck/src/org.cpp) keeps of its text: every byte.
use Prim.Native.String.{String}
use duckdb_panduck.Base.{
  ℕ, zero, suc, ◌<◌, ◌≡◌, refl, subst, ◌≢◌, Bool, true, false, List, [], ◌∷◌, ◌++◌, Option, none,
  some, arith, inl, inr, Option-cases, length, length-append, append_assoc, append-nil,
}
use duckdb_panduck.OrgReader.Marks.{IsLink, link_run-IsLink, link_at-IsLinkAt, run_at-IsMarkedAt}
use duckdb_panduck.OrgReader.Runs.{
  Inline, marker_type, text_run, push_text, link_at, link_run, run_at, marked_run, inline_loop,
  parse_inlines,
}
use duckdb_panduck.Text.{Bytes, codes}

-- The runs, one behind the other, are written out to the source; no two texts stand side by side.
pub data Spells (level : ℕ) : Bool → List Inline → Bytes → Type 0 where
  no_runs : {b : Bool} → Spells level b [] []
  a_text :
      {runs : List Inline} {s : Bytes} (text : Bytes)
      → text ≢ []
      → Spells level true runs s
      → Spells level false (text_run level text ∷ runs) (text ++ s)
  a_link :
      {b : Bool} {runs : List Inline} {link : Inline} {body s : Bytes}
      → IsLink level link body
      → Spells level false runs s
      → Spells level b (link ∷ runs) (codes "[[" ++ (body ++ (codes "]]" ++ s)))
  a_run :
      {b : Bool} {runs : List Inline} {s : Bytes} {type : String} (c : ℕ) (content : Bytes)
      → marker_type c ≡ some type
      → content ≢ []
      → Spells level false runs s
      → Spells level b (marked_run level type content ∷ runs) (c ∷ (content ++ (c ∷ s)))

push_text-Spells :
    (level : ℕ) (plain s : Bytes) (runs : List Inline)
    → ((b : Bool) → Spells level b runs s)
    → Spells level false (push_text level plain ++ runs) (plain ++ s)
unfolding push_text
push_text-Spells level [] s runs h = h false
push_text-Spells level (c ∷ plain) s runs h = a_text (c ∷ plain) (λ e. ground arith) (h true)

module _ (fuel level : ℕ) (prev : Option ℕ) (plain : Bytes) (c : ℕ) (s : Bytes) where
  inline_loop_link :
      {body rest : Bytes}
      → link_at (c ∷ s) ≡ some (body, rest)
      → inline_loop (suc fuel) level prev plain (c ∷ s)
        ≡ push_text level plain
          ++ (link_run level body ∷ inline_loop fuel level (some b']') [] rest)
  unfolding inline_loop
  inline_loop_link h = rw (inline_loop, h) refl

  inline_loop_run :
      {type : String} {content rest : Bytes}
      → link_at (c ∷ s) ≡ none
      → run_at prev c s ≡ some (type, (content, rest))
      → inline_loop (suc fuel) level prev plain (c ∷ s)
        ≡ push_text level plain
          ++ (marked_run level type content ∷ inline_loop fuel level (some c) [] rest)
  unfolding inline_loop
  inline_loop_run h k = rw (inline_loop, h, k) refl

  inline_loop-plain :
      link_at (c ∷ s) ≡ none
      → run_at prev c s ≡ none
      → inline_loop (suc fuel) level prev plain (c ∷ s)
        ≡ inline_loop fuel level (some c) (plain ++ c ∷ []) s
  unfolding inline_loop
  inline_loop-plain h k = rw (inline_loop, h, k) refl

link_rest_shorter :
    (s body rest : Bytes)
    → s ≡ codes "[[" ++ (body ++ (codes "]]" ++ rest))
    → length rest < length s
link_rest_shorter s body rest h = rw h (omega (arith, length-append body (codes "]]" ++ rest)))

run_rest_shorter :
    (c : ℕ) (s content rest : Bytes) → s ≡ content ++ (c ∷ rest) → length rest < length s
run_rest_shorter c s content rest h = rw h (omega (arith, length-append content (c ∷ rest)))

inline_loop_end :
    (fuel level : ℕ) (prev : Option ℕ) (plain : Bytes)
    → Spells level false (inline_loop (suc fuel) level prev plain []) (plain ++ [])
unfolding inline_loop
inline_loop_end fuel level prev plain =
    subst (λ rs. Spells level false rs (plain ++ [])) (append-nil (push_text level plain))
      (push_text-Spells level plain [] [] (λ b. no_runs))

inline_loop-Spells :
    (fuel level : ℕ) (prev : Option ℕ) (plain s : Bytes)
    → length s < fuel
    → Spells level false (inline_loop fuel level prev plain s) (plain ++ s)
inline_loop-Spells zero level prev plain s h = absurd (omega arith)
inline_loop-Spells (suc fuel) level prev plain [] h = inline_loop_end fuel level prev plain
inline_loop-Spells (suc fuel) level prev plain (c ∷ s) h =
    let linked = link_at-IsLinkAt (c ∷ s) in
    let marked = run_at-IsMarkedAt prev c s in
    elim (Option-cases (link_at (c ∷ s))) [
      | inr ((body, rest), e) ↦
          let k = rw e at linked in
          let short = link_rest_shorter (c ∷ s) body rest k in
          let ih = inline_loop-Spells fuel level (some b']') [] rest (omega arith) in
          rw (inline_loop_link fuel level prev plain c s e) (
            rw k (
              push_text-Spells level plain (codes "[[" ++ (body ++ (codes "]]" ++ rest)))
                (link_run level body ∷ inline_loop fuel level (some b']') [] rest)
                (λ b. a_link (link_run-IsLink level body) ih)))
      | inl e ↦ elim (Option-cases (run_at prev c s)) [
        | inr ((type, (content, rest)), f) ↦
            let k = rw f at marked in
            let short = run_rest_shorter c s content rest k.1.1 in
            let ih = inline_loop-Spells fuel level (some c) [] rest (omega arith) in
            rw (inline_loop_run fuel level prev plain c s e f) (
              rw (k.1.1) (
                push_text-Spells level plain (c ∷ (content ++ (c ∷ rest)))
                  (marked_run level type content ∷ inline_loop fuel level (some c) [] rest)
                  (λ b. a_run c content k.0 k.1.0 ih)))
        | inl f ↦ rw (inline_loop-plain fuel level prev plain c s e f) (
            subst (Spells level false (inline_loop fuel level (some c) (plain ++ c ∷ []) s))
              (append_assoc plain (c ∷ []) s)
              (inline_loop-Spells fuel level (some c) (plain ++ c ∷ []) s (omega arith)))
      ]
    ]

-- The runs that ParseInlines gives, each written with its markers or as a link, are the text byte
-- for byte: nothing is lost, added or moved, no run is empty but for a link, and no two texts stand
-- side by side.
pub parse_inlines-Spells : (s : Bytes) (level : ℕ) → Spells level false (parse_inlines s level) s
unfolding parse_inlines
parse_inlines-Spells s level = inline_loop-Spells (suc (length s)) level none [] s (omega arith)
