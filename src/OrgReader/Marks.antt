-- ===== src/OrgReader/Marks.antt =====
-- Where ParseInlines (libpanduck/src/org.cpp) finds a link or an emphasis run, it is written.
use Prim.Native.String.{String}
use duckdb_panduck.Base.{
  ℕ, ◌+◌, ◌≡◌, refl, sym, subst, ap, ◌∙◌, ◌≢◌, [], ◌∷◌, ◌++◌, Option, none, some, arith, inl, inr,
  Bool-cases, Option-cases, take, drop, ◌==◌, not, ◌&&◌,
}
use duckdb_panduck.OrgReader.Runs.{
  Inline, marker_type, link_at, link_split, link_run, cons_first, close_behind, close_run,
  typed_run, run_at, opens_here,
}
use duckdb_panduck.Text.{Bytes, codes, starts_with, find_text, is_space}
use duckdb_panduck.Text.Find.{find_text-split, starts_with-split}

-- How a link is written: its target, or its target and its label.
pub data IsLink (level : ℕ) : Inline → Bytes → Type 0 where
  bare : (body : Bytes) → IsLink level (link_split level body none) body
  labelled :
      (href label : Bytes)
      → IsLink level
          (record { element_type = "link"; content = label; href = href; level = level })
          (href ++ (codes "][" ++ label))

-- What the search for a link says of the text: the link is written at its start.
abbrev pub IsLinkAt : Bytes → Option (Bytes × Bytes) → Type 0
IsLinkAt s none = Unit
IsLinkAt s (some (body, rest)) = s ≡ codes "[[" ++ (body ++ (codes "]]" ++ rest))

pub link_at-IsLinkAt : (s : Bytes) → IsLinkAt s (link_at s)
unfolding link_at
link_at-IsLinkAt s = elim (Bool-cases (starts_with (codes "[[") s)) [
  | inl e ↦ elim (Option-cases (find_text (codes "]]") (drop 2 s))) [
    | inl f ↦ rw (e, f) tt
    | inr (close, f) ↦
        rw (e, f)
          (starts_with-split (codes "[[") s e
            ∙ ap (λ t. codes "[[" ++ t) (find_text-split (codes "]]") (drop 2 s) close f))
  ]
  | inr e ↦ rw e tt
]

pub link_run-IsLink : (level : ℕ) (body : Bytes) → IsLink level (link_run level body) body
unfolding link_run
link_run-IsLink level body = elim (Option-cases (find_text (codes "][") body)) [
  | inl f ↦ rw f (bare body)
  | inr (sep, f) ↦ rw f (
      subst (λ s. IsLink level (link_split level body (some sep)) s)
        (sym (find_text-split (codes "][") body sep f))
        (labelled (take sep body) (drop (sep + 2) body)))
]

-- What the search for the end of a run says of the text behind its marker.
abbrev IsRunAt : ℕ → Bytes → Option (Bytes × Bytes) → Type 0
IsRunAt m s none = Unit
IsRunAt m s (some (content, rest)) = s ≡ content ++ (m ∷ rest)

cons_first-IsRunAt :
    (m c : ℕ) (s : Bytes) (found : Option (Bytes × Bytes))
    → IsRunAt m s found
    → IsRunAt m (c ∷ s) (cons_first c found)
cons_first-IsRunAt m c s none h = tt
cons_first-IsRunAt m c s (some (content, rest)) h = ap (λ t. c ∷ t) h

close_behind-IsRunAt : (m prev : ℕ) (s : Bytes) → IsRunAt m s (close_behind m prev s)
unfolding close_behind
close_behind-IsRunAt m prev [] = tt
close_behind-IsRunAt m prev (c ∷ s) =
    let later = cons_first-IsRunAt m c s (close_behind m c s) (close_behind-IsRunAt m c s) in
    elim (Bool-cases (c == m && not (is_space prev))) [
      | inl e ↦ rw e (ap (λ x. x ∷ s) (ground arith))
      | inr e ↦ rw e later
    ]

-- The content of a run that is found is not empty, and is written between its markers.
abbrev pub IsMarkedAt : ℕ → Bytes → Option (String × (Bytes × Bytes)) → Type 0
IsMarkedAt c s none = Unit
IsMarkedAt c s (some (type, (content, rest))) =
    (marker_type c ≡ some type) × ((content ≢ []) × (s ≡ content ++ (c ∷ rest)))

typed_run-IsMarkedAt :
    (c d : ℕ) (s : Bytes) (type : Option String) (found : Option (Bytes × Bytes))
    → marker_type c ≡ type
    → IsRunAt c s found
    → IsMarkedAt c (d ∷ s) (typed_run type (cons_first d found))
typed_run-IsMarkedAt c d s none found h k = tt
typed_run-IsMarkedAt c d s (some type) none h k = tt
typed_run-IsMarkedAt c d s (some type) (some (content, rest)) h k =
    (h, ((λ e. ground arith), ap (λ t. d ∷ t) k))

typed_run-none : (c : ℕ) (s : Bytes) (type : Option String) → IsMarkedAt c s (typed_run type none)
typed_run-none c s none = tt
typed_run-none c s (some type) = tt

pub run_at-IsMarkedAt : (prev : Option ℕ) (c : ℕ) (s : Bytes) → IsMarkedAt c s (run_at prev c s)
unfolding run_at close_run
run_at-IsMarkedAt prev c [] = elim (Bool-cases (opens_here prev [])) [
  | inl e ↦ rw e (typed_run-none c [] (marker_type c))
  | inr e ↦ rw e tt
]
run_at-IsMarkedAt prev c (d ∷ s) = elim (Bool-cases (opens_here prev (d ∷ s))) [
  | inl e ↦ elim (Bool-cases (d == c)) [
    | inl f ↦ rw (e, f) (typed_run-none c (d ∷ s) (marker_type c))
    | inr f ↦
        rw (e, f)
          (typed_run-IsMarkedAt c d s (marker_type c) (close_behind c d s) refl
            (close_behind-IsRunAt c d s))
  ]
  | inr e ↦ rw e tt
]
