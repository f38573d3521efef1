-- ===== src/WikiReader/Rounds.antt =====
-- The loops of the MediaWiki reader (libpanduck/src/mediawiki.cpp) end.
use Prim.Native.String.{String}
use duckdb_panduck.Base.{
  ℕ, zero, suc, ◌+◌, ◌≤◌, ◌<◌, ◌≡◌, refl, List, [], ◌∷◌, ◌++◌, Option, none, some, ◌==◌, length,
  All, arith, Bool-cases, Option-cases, inl, inr, reverse, take, drop, take_short, drop_short,
}
use duckdb_panduck.Text.{Bytes, codes, starts_with, find, find_text, back}
use duckdb_panduck.Vocabulary.{inline_bold, inline_italic}
use duckdb_panduck.WikiReader.Runs.{
  MwInline, Found, literal, node, wrapped, bold_italic, mw_inline, push_text, push_wrapped, balance,
  find_template, find_nowiki, find_code, find_ref, ref_at, ref_body, find_wiki_link, wiki_link,
  find_external_link, external_link, is_external, find_bold_italic, find_wrapped, first_found,
  behind, not_double, all_found, finders, found_at, inline_loop,
}

-- What is left behind a construct, and what it wraps, are no longer than `n`.
abbrev Within : ℕ → Found → Type 0
Within n (literal text rest) = length rest ≤ n
Within n (node type content attrs rest) = length rest ≤ n
Within n (wrapped type inner rest) = (length rest ≤ n) × (length inner ≤ n)
Within n (bold_italic inner rest) = (length rest ≤ n) × (length inner ≤ n)

abbrev IsWithin : ℕ → Option Found → Type 0
IsWithin n none = Unit
IsWithin n (some f) = Within n f

Within-weaken : (n k : ℕ) (f : Found) → n ≤ k → Within n f → Within k f
Within-weaken n k (literal text rest) h w = omega arith
Within-weaken n k (node type content attrs rest) h w = omega arith
Within-weaken n k (wrapped type inner rest) h w = (omega (arith, w.0), omega (arith, w.1))
Within-weaken n k (bold_italic inner rest) h w = (omega (arith, w.0), omega (arith, w.1))

IsWithin-weaken : (n k : ℕ) (o : Option Found) → n ≤ k → IsWithin n o → IsWithin k o
IsWithin-weaken n k none h w = tt
IsWithin-weaken n k (some f) h w = Within-weaken n k f h w

find_template-IsWithin : (s : Bytes) → IsWithin (length s) (find_template s)
unfolding find_template
find_template-IsWithin s = elim (Option-cases (balance 1 s)) [
  | inl e ↦ rw (find_template, e) tt
  | inr (n, e) ↦ rw (find_template, e) (drop_short n s)
]

find_nowiki-IsWithin : (s : Bytes) → IsWithin (length s) (find_nowiki s)
unfolding find_nowiki
find_nowiki-IsWithin s = elim (Option-cases (find_text (codes "</nowiki>") s)) [
  | inl e ↦ rw (find_nowiki, e) tt
  | inr (n, e) ↦ rw (find_nowiki, e) (drop_short (n + 9) s)
]

find_code-IsWithin : (s : Bytes) → IsWithin (length s) (find_code s)
unfolding find_code
find_code-IsWithin s = elim (Option-cases (find_text (codes "</code>") s)) [
  | inl e ↦ rw (find_code, e) tt
  | inr (n, e) ↦ rw (find_code, e) (drop_short (n + 7) s)
]

ref_body-Within : (attrs : List (String × Bytes)) (s : Bytes) → Within (length s) (ref_body attrs s)
unfolding ref_body
ref_body-Within attrs s = elim (Option-cases (find_text (codes "</ref>") s)) [
  | inl e ↦ rw (ref_body, e) (omega arith)
  | inr (n, e) ↦ rw (ref_body, e) (drop_short (n + 6) s)
]

ref_at-Within : (tag s : Bytes) → Within (length s) (ref_at tag s)
ref_at-Within tag s = elim (Bool-cases (back tag == b'/')) [
  | inl e ↦ rw e (omega arith)
  | inr e ↦ rw e (ref_body-Within _ s)
]

find_ref-IsWithin : (s : Bytes) → IsWithin (length s) (find_ref s)
unfolding find_ref
find_ref-IsWithin s = elim (Option-cases (find b'>' s)) [
  | inl e ↦ rw (find_ref, e) tt
  | inr (gt, e) ↦
      let rest = drop (suc gt) s in
      rw (find_ref, e)
        (Within-weaken (length rest) (length s) (ref_at (take gt s) rest) (drop_short (suc gt) s)
          (ref_at-Within (take gt s) rest))
]

wiki_link-Within :
    (inner : Bytes) (o : Option ℕ) (rest : Bytes) → Within (length rest) (wiki_link inner o rest)
wiki_link-Within inner none rest = omega arith
wiki_link-Within inner (some bar) rest = omega arith

find_wiki_link-IsWithin : (s : Bytes) → IsWithin (length s) (find_wiki_link s)
unfolding find_wiki_link
find_wiki_link-IsWithin s = elim (Option-cases (find_text (codes "]]") s)) [
  | inl e ↦ rw (find_wiki_link, e) tt
  | inr (n, e) ↦
      let rest = drop (n + 2) s in
      let link = wiki_link (take n s) (find b'|' (take n s)) rest in
      rw (find_wiki_link, e)
        (Within-weaken (length rest) (length s) link (drop_short (n + 2) s)
          (wiki_link-Within (take n s) (find b'|' (take n s)) rest))
]

external_link-IsWithin :
    (inner : Bytes) (o : Option ℕ) (rest : Bytes)
    → IsWithin (length rest) (external_link inner o rest)
external_link-IsWithin inner none rest = elim (Bool-cases (is_external inner)) [
  | inl e ↦ rw e (omega arith)
  | inr e ↦ rw e tt
]
external_link-IsWithin inner (some sp) rest = elim (Bool-cases (is_external (take sp inner))) [
  | inl e ↦ rw e (omega arith)
  | inr e ↦ rw e tt
]

find_external_link-IsWithin : (s : Bytes) → IsWithin (length s) (find_external_link s)
unfolding find_external_link
find_external_link-IsWithin s = elim (Option-cases (find b']' s)) [
  | inl e ↦ rw (find_external_link, e) tt
  | inr (n, e) ↦
      let rest = drop (suc n) s in
      let sp = find b' ' (take n s) in
      rw (find_external_link, e)
        (IsWithin-weaken (length rest) (length s) (external_link (take n s) sp rest)
          (drop_short (suc n) s) (external_link-IsWithin (take n s) sp rest))
]

find_bold_italic-IsWithin : (s : Bytes) → IsWithin (length s) (find_bold_italic s)
unfolding find_bold_italic
find_bold_italic-IsWithin s = elim (Option-cases (find_text (codes "'''''") s)) [
  | inl e ↦ rw (find_bold_italic, e) tt
  | inr (n, e) ↦ rw (find_bold_italic, e) (drop_short (n + 5) s, take_short n s)
]

find_wrapped-IsWithin :
    (type : String) (delim s : Bytes) → IsWithin (length s) (find_wrapped type delim s)
unfolding find_wrapped
find_wrapped-IsWithin type delim s = elim (Option-cases (find_text delim s)) [
  | inl e ↦ rw (find_wrapped, e) tt
  | inr (n, e) ↦ rw (find_wrapped, e) (drop_short (n + length delim) s, take_short n s)
]

-- A finder that leaves less than it is given.
abbrev Shortens : (Bytes → Option Found) → Type 0
Shortens f = (c : ℕ) (s : Bytes) → IsWithin (length s) (f (c ∷ s))

behind-Shortens :
    (o : ℕ) (opener : Bytes) (f : Bytes → Option Found)
    → ((s : Bytes) → IsWithin (length s) (f s))
    → Shortens (behind (o ∷ opener) f)
behind-Shortens o opener f h c s = elim (Bool-cases (starts_with (o ∷ opener) (c ∷ s))) [
  | inl e ↦
      let rest = drop (length opener) s in
      rw e
        (IsWithin-weaken (length rest) (length s) (f rest) (drop_short (length opener) s) (h rest))
  | inr e ↦ rw e tt
]

not_double-Shortens :
    (opener : Bytes) (f : Bytes → Option Found)
    → ((s : Bytes) → IsWithin (length s) (f s))
    → Shortens (not_double opener f)
not_double-Shortens opener f h c s = elim (Bool-cases (starts_with opener (c ∷ s))) [
  | inl e ↦ rw e tt
  | inr e ↦ rw e (behind-Shortens b'[' [] f h c s)
]

first_found-IsWithin :
    (n : ℕ) (o p : Option Found) → IsWithin n o → IsWithin n p → IsWithin n (first_found o p)
first_found-IsWithin n none p h k = k
first_found-IsWithin n (some f) p h k = h

finders-Shorten : All Shortens finders
finders-Shorten = (
  behind-Shortens b'{' (codes "{") find_template find_template-IsWithin,
  (
    behind-Shortens b'<' (codes "nowiki>") find_nowiki find_nowiki-IsWithin,
    (
      behind-Shortens b'<' (codes "code>") find_code find_code-IsWithin,
      (
        behind-Shortens b'<' (codes "ref") find_ref find_ref-IsWithin,
        (
          behind-Shortens b'[' (codes "[") find_wiki_link find_wiki_link-IsWithin,
          (
            not_double-Shortens (codes "[[") find_external_link find_external_link-IsWithin,
            (
              behind-Shortens b'\'' (codes "''''") find_bold_italic find_bold_italic-IsWithin,
              (
                behind-Shortens b'\'' (codes "''") (find_wrapped inline_bold (codes "'''"))
                    (find_wrapped-IsWithin inline_bold (codes "'''")),
                (
                  behind-Shortens b'\'' (codes "'") (find_wrapped inline_italic (codes "''"))
                      (find_wrapped-IsWithin inline_italic (codes "''")),
                  tt,
                ),
              ),
            ),
          ),
        ),
      ),
    ),
  ),
)

all_found-Shortens :
    (fs : List (Bytes → Option Found)) → All Shortens fs → Shortens (λ s. all_found s fs)
all_found-Shortens [] h c s = tt
all_found-Shortens (f ∷ fs) (h, hs) c s =
    first_found-IsWithin (length s) (f (c ∷ s)) (all_found (c ∷ s) fs) (h c s)
      (all_found-Shortens fs hs c s)

found_at-Shortens : Shortens found_at
unfolding found_at
found_at-Shortens = all_found-Shortens finders finders-Shorten

-- ParseInlines ends, also where a run wraps another text: neither the loop nor the calls inside it
-- need more rounds than the text has bytes, and one.
pub inline_loop_fuel :
    (fuel more level : ℕ) (pending : Bytes) (out : List MwInline) (s : Bytes)
    → length s < fuel
    → fuel ≤ more
    → inline_loop fuel level pending out s ≡ inline_loop more level pending out s
unfolding inline_loop
inline_loop_fuel zero more level pending out s h k = absurd (omega arith)
inline_loop_fuel (suc fuel) zero level pending out s h k = absurd (omega arith)
inline_loop_fuel (suc fuel) (suc more) level pending out [] h k = refl
inline_loop_fuel (suc fuel) (suc more) level pending out (c ∷ s) h k =
    let inside = found_at-Shortens c s in
    let same = λ (l : ℕ) (p : Bytes) (o : List MwInline) (t : Bytes) (q : length t ≤ length s).
      inline_loop_fuel fuel more l p o t (omega arith) (omega arith) in
    elim (Option-cases (found_at (c ∷ s))) [
      | inl e ↦ rw (inline_loop, e) (same level (pending ++ c ∷ []) out s (omega arith))
      | inr (f, e) ↦
          (elim f
              as (λ f.
                found_at (c ∷ s) ≡ some f
                → Within (length s) f
                → inline_loop (suc fuel) level pending out (c ∷ s)
                  ≡ inline_loop (suc more) level pending out (c ∷ s)) [
                    | literal text rest ↦
                        λ e w. rw (inline_loop, e) (same level (pending ++ text) out rest w)
                    | node type content attrs rest ↦ λ e w.
                        rw (inline_loop, e)
                          (same level []
                            (mw_inline type content attrs level ∷ push_text pending level out) rest
                            w)
                    | wrapped type inner rest ↦ λ e w.
                        rw (inline_loop, e)
                          (rw (same (suc level) [] [] inner w.1) (
                            same level []
                              (push_wrapped (mw_inline type [] [] level)
                                (reverse (inline_loop more (suc level) [] [] inner))
                                (push_text pending level out))
                              rest w.0))
                    | bold_italic inner rest ↦ λ e w.
                        rw (inline_loop, e)
                          (rw (same (suc (suc level)) [] [] inner w.1) (
                            same level []
                              (push_wrapped (mw_inline inline_italic [] [] (suc level))
                                (reverse (inline_loop more (suc (suc level)) [] [] inner))
                                (mw_inline inline_bold [] [] level ∷ push_text pending level out))
                              rest w.0))
                  ])
            e (rw e at inside)
    ]
