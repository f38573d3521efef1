-- ===== src/MediaWiki/Outside.antt =====
-- The branches for a line outside of tables (libpanduck/src/mediawiki_scanner.cpp).
use duckdb_panduck.Base.{
  ℕ, suc, ◌-◌, ◌≤◌, ◌≡◌, refl, Bool, true, false, not, ◌&&◌, List, [], arith, length, if◌then◌else◌,
  Option, none, some, drop, ◌==◌, ltb,
}
use duckdb_panduck.MediaWiki.Markup.{
  LineKind, blank, table_start, table_row, table_cell, table_header, table_end, hrule, template,
  behavior, comment, text, Line, make, trimmed, brace_delta, html_tag, html_known, opens_with,
  is_behavior_switch,
}
use duckdb_panduck.MediaWiki.Rounds.{gather_left, html_loop_keeps}
use duckdb_panduck.MediaWiki.{
  Round, html_round, html_at, scan_html, scan_text, round_or, html_or, scan_plain, scan_heading,
  scan_list, scan_simple, scan_preformatted, scan_tags, closing_tag, is_dash,
}
use duckdb_panduck.Text.{Bytes, codes, find, starts_with, at, all_bytes}

-- May a line of this kind stand where a table is open, or where none is?
abbrev pub may_stand : Bool → LineKind → Bool
may_stand inside table_row = inside
may_stand inside table_cell = inside
may_stand inside table_header = inside
may_stand inside table_end = inside
may_stand inside blank = true
may_stand inside template = true
may_stand inside text = true
may_stand inside _ = not inside

-- Is a table open behind a line of this kind?
abbrev pub open_after : Bool → LineKind → Bool
open_after inside table_start = true
open_after inside table_end = false
open_after inside _ = inside

-- What a round leaves, of `n` lines behind its own.
pub record IsRound (inside : Bool) (n : ℕ) (r : Round) : Type 0 where
  pub stands : may_stand inside r.line.kind ≡ true
  pub opens : r.in_table ≡ open_after inside r.line.kind
  pub left : length r.rest ≤ n

-- A line that a branch outside of tables gives.
abbrev is_outside : LineKind → Bool
is_outside k = may_stand false k && not (open_after false k)

data OutsideLine : Option Line → Type 0 where
  no_line : OutsideLine none
  a_line : {l : Line} → is_outside l.kind ≡ true → OutsideLine (some l)

data OutsideRound (n : ℕ) : Option Round → Type 0 where
  no_round : OutsideRound n none
  a_round : {r : Round} → IsRound false n r → OutsideRound n (some r)

if-OutsideLine :
    (b : Bool) (x y : Option Line)
    → OutsideLine x
    → OutsideLine y
    → OutsideLine (if b then x else y)
if-OutsideLine true x y h k = h
if-OutsideLine false x y h k = k

is_outside-stands :
    (k : LineKind) → is_outside k ≡ true → (may_stand false k ≡ true) × (false ≡ open_after false k)
is_outside-stands k h = split (may_stand false k) (open_after false k) h
  where
    split : (a b : Bool) → (a && not b) ≡ true → (a ≡ true) × (false ≡ b)
    split true false h = (refl, refl)
    split true true h = absurd (cc)
    split false b h = absurd (cc)

round_or-IsRound :
    (o : Option Line) (rest : List Bytes) (other : Round)
    → OutsideLine o
    → IsRound false (length rest) other
    → IsRound false (length rest) (round_or o rest other)
round_or-IsRound none rest other h k = k
round_or-IsRound (some l) rest other (a_line h) k =
    let (stands, closed) = is_outside-stands l.kind h in
    record { stands = stands; opens = closed; left = omega arith }

html_or-IsRound :
    (n : ℕ) (o : Option Round) (other : Round)
    → OutsideRound n o
    → IsRound false n other
    → IsRound false n (html_or o other)
html_or-IsRound n none other h k = k
html_or-IsRound n (some r) other (a_round h) k = h

scan_heading-OutsideLine : (t : Bytes) → OutsideLine (scan_heading t)
unfolding scan_heading
scan_heading-OutsideLine t = if-OutsideLine _ _ _ (a_line refl) no_line

scan_list-OutsideLine : (t : Bytes) → OutsideLine (scan_list t)
unfolding scan_list
scan_list-OutsideLine t = if-OutsideLine _ _ _ no_line (a_line refl)

scan_simple-OutsideLine : (t : Bytes) → OutsideLine (scan_simple t)
unfolding scan_simple
scan_simple-OutsideLine t =
    if-OutsideLine (starts_with (codes "----") t && all_bytes is_dash t) _ _
      (a_line {l = make hrule []} refl)
      (if-OutsideLine (is_behavior_switch t) _ _
        (a_line {l = record (make behavior t) { name = t }} refl)
        (if-OutsideLine _ _ _ (a_line {l = make comment []} refl) no_line))

scan_preformatted-OutsideLine : (raw : Bytes) → OutsideLine (scan_preformatted raw)
unfolding scan_preformatted
scan_preformatted-OutsideLine raw = if-OutsideLine _ _ _ (a_line refl) no_line

scan_tags-OutsideLine : (t : Bytes) → OutsideLine (scan_tags t)
unfolding scan_tags
scan_tags-OutsideLine t = if-OutsideLine _ _ _ (a_line refl) no_line

pub if-IsRound :
    {inside : Bool} {n : ℕ} (b : Bool) (x y : Round)
    → IsRound inside n x
    → IsRound inside n y
    → IsRound inside n (if b then x else y)
if-IsRound true x y h k = h
if-IsRound false x y h k = k

html_round-IsRound :
    (t : Bytes) (rest : List Bytes) (close : ℕ)
    → IsRound false (length rest) (html_round t rest close)
unfolding html_round
html_round-IsRound t rest close =
    let left = html_loop_keeps (closing_tag (html_tag t)) rest (drop (suc close) t) in
    if-IsRound (at t (close - 1) == b'/') _ _
      (record { stands = refl; opens = refl; left = omega arith })
      (record { stands = refl; opens = refl; left = left })

scan_html-OutsideRound :
    (t : Bytes) (rest : List Bytes) → OutsideRound (length rest) (scan_html t rest)
unfolding scan_html
scan_html-OutsideRound t rest =
    if_round (opens_with b'<' t && ltb 2 (length t) && html_known (html_tag t))
      (found (find b'>' t))
  where
    if_round :
        {o : Option Round} (b : Bool)
        → OutsideRound (length rest) o
        → OutsideRound (length rest) (if b then o else none)
    if_round true h = h
    if_round false h = no_round

    found : (o : Option ℕ) → OutsideRound (length rest) (html_at t rest o)
    found none = no_round
    found (some close) = a_round (html_round-IsRound t rest close)

scan_text-IsRound : (t : Bytes) (rest : List Bytes) → IsRound false (length rest) (scan_text t rest)
unfolding scan_text
scan_text-IsRound t rest = record {
  stands = refl;
  opens = refl;
  left = gather_left trimmed rest (brace_delta t) t;
}

pub scan_plain-IsRound :
    (raw t : Bytes) (rest : List Bytes) → IsRound false (length rest) (scan_plain raw t rest)
unfolding scan_plain
scan_plain-IsRound raw t rest = round_or-IsRound _ rest _ (scan_heading-OutsideLine t) (
    round_or-IsRound _ rest _ (scan_list-OutsideLine t) (
      round_or-IsRound _ rest _ (scan_simple-OutsideLine t) (
        html_or-IsRound _ _ _ (scan_html-OutsideRound t rest) (
          round_or-IsRound _ rest _ (scan_preformatted-OutsideLine raw)
            (round_or-IsRound _ rest _ (scan_tags-OutsideLine t) (scan_text-IsRound t rest))))))
