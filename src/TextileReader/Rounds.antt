-- ===== src/TextileReader/Rounds.antt =====
-- The loops of the Textile reader (libpanduck/src/textile.cpp) end.
use Prim.Native.String.{String}
use duckdb_panduck.Base.{
  ℕ, zero, suc, ◌+◌, ◌≤◌, ◌<◌, ◌≡◌, refl, Bool, true, false, not, List, [], ◌∷◌, ◌++◌, Option, none,
  some, if◌then◌else◌, ◌==◌, ◌||◌, ◌&&◌, length, arith, All, Bool-cases, Option-cases, inl, inr,
  reverse, take, drop, take_short, drop_short, length-drop,
}
use duckdb_panduck.Text.{
  Bytes, codes, any_byte, starts_with, find, find_text, take_while, trim_right,
}
use duckdb_panduck.TextileReader.Runs.{
  TxInline, Mark, push_text, push_wrapped, node_of, link_mark, find_link, find_image, opens_word,
  follows_word, close_delim, mark_at, try_delim, try_delims, delims, first_found, inline_loop,
  not_space, is_url_end,
}

-- What is left behind a construct, and what it wraps, are no longer than `n`.
abbrev IsInner : ℕ → Option Bytes → Type 0
IsInner n none = Unit
IsInner n (some w) = length w ≤ n

abbrev IsWithin : ℕ → Option Mark → Type 0
IsWithin n none = Unit
IsWithin n (some m) = (length m.rest ≤ n) × IsInner n m.inner

find_link-IsWithin : (s : Bytes) → IsWithin (length s) (find_link s)
unfolding find_link link_mark
find_link-IsWithin s = elim (Option-cases (find_text (codes "\":") s)) [
  | inl e ↦ rw (find_link, e) tt
  | inr (close, e) ↦
      let behind = drop (close + 2) s in
      let href = trim_right is_url_end (take_while not_space behind) in
      rw (find_link, e)
        (omega (arith, drop_short (length href) behind, drop_short (close + 2) s), tt)
]

find_image-IsWithin : (s : Bytes) → IsWithin (length s) (find_image s)
unfolding find_image
find_image-IsWithin s = elim (Option-cases (find b'!' s)) [
  | inl e ↦ rw (find_image, e) tt
  | inr (close, e) ↦ elim (Bool-cases (close == 0 || any_byte (λ c. c == b' ') (take close s))) [
    | inl f ↦ rw (find_image, e, f) tt
    | inr f ↦ rw (find_image, e, f) (drop_short (suc close) s, tt)
  ]
]

close_delim-IsWithin :
    (delim : Bytes) (type : String) (s : Bytes) → IsWithin (length s) (close_delim delim type s)
unfolding close_delim
close_delim-IsWithin delim type s = elim (Option-cases (find_text delim s)) [
  | inl e ↦ rw (close_delim, e) tt
  | inr (close, e) ↦ elim (Bool-cases (opens_word (drop (close + length delim) s))) [
    | inl f ↦ rw (close_delim, e, f) tt
    | inr f ↦ rw (close_delim, e, f) (drop_short (close + length delim) s, take_short close s)
  ]
]

IsWithin-weaken : (n k : ℕ) (o : Option Mark) → n ≤ k → IsWithin n o → IsWithin k o
IsWithin-weaken n k none h w = tt
IsWithin-weaken n k (some m) h w = (omega (arith, w.0), inner m.inner w.1)
  where
    inner : (o : Option Bytes) → IsInner n o → IsInner k o
    inner none i = tt
    inner (some v) i = omega arith

try_delim-IsWithin :
    (prev : Option ℕ) (c : ℕ) (s : Bytes) (d : Bytes × String)
    → 1 ≤ length d.0
    → IsWithin (length s) (try_delim prev (c ∷ s) d)
unfolding try_delim
try_delim-IsWithin prev c s (delim, type) h =
    elim (Bool-cases (starts_with delim (c ∷ s) && not (follows_word prev))) [
      | inl e ↦
          let behind = drop (length delim) (c ∷ s) in
          let short : length behind ≤ length s =
            omega (arith, length-drop (length delim) (c ∷ s)) in
          rw e (
            IsWithin-weaken (length behind) (length s) (close_delim delim type behind) short
              (close_delim-IsWithin delim type behind))
      | inr e ↦ rw e tt
    ]

first_found-IsWithin :
    (n : ℕ) (o p : Option Mark) → IsWithin n o → IsWithin n p → IsWithin n (first_found o p)
first_found-IsWithin n none p h k = k
first_found-IsWithin n (some m) p h k = h

try_delims-IsWithin :
    (prev : Option ℕ) (c : ℕ) (s : Bytes) (ds : List (Bytes × String))
    → All (λ d. 1 ≤ length d.0) ds
    → IsWithin (length s) (try_delims prev (c ∷ s) ds)
try_delims-IsWithin prev c s [] h = tt
try_delims-IsWithin prev c s (d ∷ ds) (h, hs) =
    first_found-IsWithin (length s) (try_delim prev (c ∷ s) d) (try_delims prev (c ∷ s) ds)
      (try_delim-IsWithin prev c s d h) (try_delims-IsWithin prev c s ds hs)

if-IsWithin :
    (b : Bool) (n : ℕ) (o : Option Mark) → IsWithin n o → IsWithin n (if b then o else none)
if-IsWithin true n o h = h
if-IsWithin false n o h = tt

mark_at-IsWithin : (prev : Option ℕ) (c : ℕ) (s : Bytes) → IsWithin (length s) (mark_at prev c s)
unfolding mark_at
mark_at-IsWithin prev c s =
    let link = if c == b'"' then find_link s else none in
    let image = if c == b'!' then find_image s else none in
    let delim = try_delims prev (c ∷ s) delims in
    first_found-IsWithin (length s) link (first_found image delim)
      (if-IsWithin (c == b'"') (length s) (find_link s) (find_link-IsWithin s))
      (first_found-IsWithin (length s) image delim
        (if-IsWithin (c == b'!') (length s) (find_image s) (find_image-IsWithin s))
        (try_delims-IsWithin prev c s delims long))
  where
    long : All (λ (d : Bytes × String). 1 ≤ length d.0) delims
    long = (
      omega arith,
      (
        omega arith,
        (
          omega arith,
          (
            omega arith,
            (
              omega arith,
              (
                omega arith,
                (omega arith, (omega arith, (omega arith, (omega arith, (omega arith, tt))))),
              ),
            ),
          ),
        ),
      ),
    )

-- ParseInlines ends, also where a run wraps another text: neither the loop nor the calls inside it
-- need more rounds than the text has bytes, and one.
pub inline_loop_fuel :
    (fuel more level : ℕ) (prev : Option ℕ) (pending : Bytes) (out : List TxInline) (s : Bytes)
    → length s < fuel
    → fuel ≤ more
    → inline_loop fuel level prev pending out s ≡ inline_loop more level prev pending out s
unfolding inline_loop
inline_loop_fuel zero more level prev pending out s h k = absurd (omega arith)
inline_loop_fuel (suc fuel) zero level prev pending out s h k = absurd (omega arith)
inline_loop_fuel (suc fuel) (suc more) level prev pending out [] h k = refl
inline_loop_fuel (suc fuel) (suc more) level prev pending out (c ∷ s) h k =
    let inside = mark_at-IsWithin prev c s in
    elim (Option-cases (mark_at prev c s)) [
      | inl e ↦
          rw (inline_loop, e)
            (inline_loop_fuel fuel more level (some c) (pending ++ c ∷ []) out s (omega arith)
              (omega arith))
      | inr (m, e) ↦
          let w = rw e at inside in
          elim (Option-cases m.inner) [
            | inl f ↦
                rw (inline_loop, e, f)
                  (inline_loop_fuel fuel more level (some m.last) []
                    (node_of level m ∷ push_text pending level out) m.rest (omega (arith, w.0))
                    (omega arith))
            | inr (inner, f) ↦
                let short = rw f at w.1 in
                let ih =
                  inline_loop_fuel fuel more (suc level) none [] [] inner (omega arith)
                    (omega arith) in
                rw (inline_loop, e, f)
                  (rw ih (
                    inline_loop_fuel fuel more level (some m.last) []
                      (push_wrapped (node_of level m)
                        (reverse (inline_loop more (suc level) none [] [] inner))
                        (push_text pending level out))
                      m.rest (omega (arith, w.0)) (omega arith)))
          ]
    ]
