-- ===== src/Org/Heading.antt =====
-- Headings and text fields of the Org scanner (libpanduck/src/org_scanner.cpp).
use duckdb_panduck.Base.{
  ℕ, suc, ◌+◌, ◌-◌, ◌≤◌, ◌≡◌, ◌≢◌, refl, Bool, true, false, not, ◌||◌, [], ◌∷◌, arith, length, inl,
  inr, Bool-cases, if◌then◌else◌, Option, none, some, or_else, ◌==◌, take, drop,
}
use duckdb_panduck.Org.{
  Line, LineKind, heading, block_begin, block_end, list_item, table_row, table_rule, hrule, text,
  line, is_trim, is_space, is_star, trim_both, parse_heading, scan_directive, scan_hash,
  scan_drawer, scan_rule, scan_item, item_line, Item, parse_list_item, keyword_line, drawer_line,
  split_item, opens_space, not_space, parse_ordered, parse_item_at, classify_trimmed, classify_raw,
  classify,
}
use duckdb_panduck.Text.Trim.{OpensSolid, EndsSolid, trim-OpensSolid, trim-EndsSolid}
use duckdb_panduck.Text.{
  Bytes, trim_right, take_while, drop_while, empty, find, find_text, is_digit, same, codes, upper,
}

-- The text of a line is trimmed, and a heading has a level from 1 to 6.
pub record IsClassified (k : LineKind) (t : Bytes) (level : ℕ) : Type 0 where
  pub opens : OpensSolid is_trim t
  pub ends : EndsSolid is_trim t
  pub levels : k ≡ heading → (1 ≤ level) × (level ≤ 6)

abbrev pub IsLine : Line → Type 0
IsLine l = IsClassified l.kind l.text l.level

-- The line that a branch gives, if it gives one.
data AllLine : Option Line → Type 0 where
  missed : AllLine none
  found : {l : Line} → IsLine l → AllLine (some l)

or_else-IsLine : (o : Option Line) (d : Line) → AllLine o → IsLine d → IsLine (or_else o d)
or_else-IsLine none d h k = k
or_else-IsLine (some l) d (found h) k = h

-- A line that is no heading and has a trimmed text, or none.
trimmed-IsClassified :
    (k : LineKind) (s : Bytes) (n : ℕ) → k ≢ heading → IsClassified k (trim_both s) n
trimmed-IsClassified k s n h = record {
  opens = trim-OpensSolid is_trim s;
  ends = trim-EndsSolid is_trim s;
  levels = λ e. absurd (h e);
}

bare-IsClassified : (k : LineKind) (n : ℕ) → k ≢ heading → IsClassified k [] n
bare-IsClassified k n h = record { opens = tt; ends = tt; levels = λ e. absurd (h e) }

if-AllLine : (b : Bool) (x y : Option Line) → AllLine x → AllLine y → AllLine (if b then x else y)
if-AllLine true x y h k = h
if-AllLine false x y h k = k

keyword_line-AllLine : (raw body : Bytes) (o : Option ℕ) → AllLine (keyword_line raw body o)
keyword_line-AllLine raw body none = missed
keyword_line-AllLine raw body (some colon) =
    found (trimmed-IsClassified _ (drop (suc colon) body) _ (cc))

scan_directive-AllLine : (raw body : Bytes) → AllLine (scan_directive raw body)
unfolding scan_directive
scan_directive-AllLine raw body =
    if-AllLine _ _ _
      (found (trimmed-IsClassified block_begin (drop_while not_space (drop 6 body)) 0 (cc)))
      (if-AllLine _ _ _ (found (bare-IsClassified block_end 0 (cc)))
        (keyword_line-AllLine raw body (find b':' body)))

scan_hash-AllLine : (raw t : Bytes) → AllLine (scan_hash raw t)
unfolding scan_hash
scan_hash-AllLine raw t =
    if-AllLine _ _ _ (scan_directive-AllLine raw (drop 2 t))
      (if-AllLine _ _ _ (found (trimmed-IsClassified _ (drop 1 t) _ (cc))) missed)

drawer_line-IsLine : (name : Bytes) → IsLine (drawer_line name)
drawer_line-IsLine name = elim (Bool-cases (same name (codes "END"))) [
  | inl e ↦ rw e (bare-IsClassified _ _ (cc))
  | inr e ↦ rw e (bare-IsClassified _ _ (cc))
]

scan_drawer-AllLine : (t : Bytes) → AllLine (scan_drawer t)
unfolding scan_drawer
scan_drawer-AllLine t =
    if-AllLine _ _ _ (found (drawer_line-IsLine (upper (take (length t - 2) (drop 1 t))))) missed

scan_rule-AllLine : (raw : Bytes) → AllLine (scan_rule (trim_both raw))
unfolding scan_rule
scan_rule-AllLine raw = if-AllLine _ _ _ (found (bare-IsClassified hrule 0 (cc))) (
    if-AllLine _ _ _ (found (bare-IsClassified table_rule 0 (cc)))
      (if-AllLine _ _ _ (found (trimmed-IsClassified table_row raw 0 (cc))) missed))

-- A heading's stars are counted, at least one of them, and capped at 6.
parse_heading-AllLine : (raw : Bytes) → AllLine (parse_heading raw)
unfolding parse_heading
parse_heading-AllLine raw =
    let stars = length (take_while is_star raw) in
    let rest = drop_while is_star raw in
    elim (Bool-cases (stars == 0 || not (opens_space rest))) [
      | inl e ↦ rw e missed
      | inr e ↦ rw e (
          found (record {
            opens = trim-OpensSolid is_trim rest;
            ends = trim-EndsSolid is_trim rest;
            levels = λ k. ground arith;
          }))
    ]

split_item-IsLine :
    (l : Line) (s : Bytes) (o : Option ℕ) → l.kind ≢ heading → IsLine (split_item l (trim_both s) o)
split_item-IsLine l s none h = trimmed-IsClassified _ s _ h
split_item-IsLine l s (some sep) h = trimmed-IsClassified _ (drop (sep + 4) (trim_both s)) _ h

-- The rest of an item is trimmed.
data IsItem : Option Item → Type 0 where
  no_item : IsItem none
  item : {i : Item} (s : Bytes) → i.rest ≡ trim_both s → IsItem (some i)

if-IsItem : (b : Bool) (x y : Option Item) → IsItem x → IsItem y → IsItem (if b then x else y)
if-IsItem true x y h k = h
if-IsItem false x y h k = k

parse_ordered-IsItem : (indent : ℕ) (digits s : Bytes) → IsItem (parse_ordered indent digits s)
unfolding parse_ordered
parse_ordered-IsItem indent digits [] = no_item
parse_ordered-IsItem indent digits (c ∷ s) = if-IsItem _ _ _ no_item (item (drop 1 s) refl)

parse_item_at-IsItem : (indent : ℕ) (s : Bytes) → IsItem (parse_item_at indent s)
unfolding parse_item_at
parse_item_at-IsItem indent [] = no_item
parse_item_at-IsItem indent (c ∷ s) =
    if-IsItem _ _ _ (if-IsItem _ _ _ (item (drop 1 s) refl) no_item)
      (parse_ordered-IsItem indent (take_while is_digit (c ∷ s)) (drop_while is_digit (c ∷ s)))

scan_item-AllLine : (o : Option Item) → IsItem o → AllLine (scan_item o)
unfolding item_line
scan_item-AllLine none h = missed
scan_item-AllLine (some i) (item s e) =
    let head = record (line list_item) { level = i.indent; ordered = i.ordered; start = i.start } in
    found (rw e (split_item-IsLine head s (find_text (codes " :: ") (trim_both s)) (cc)))

chain-IsLine :
    (a b c d e : Option Line) (l : Line)
    → AllLine a
    → AllLine b
    → AllLine c
    → AllLine d
    → AllLine e
    → IsLine l
    → IsLine (or_else a (or_else b (or_else c (or_else d (or_else e l)))))
chain-IsLine a b c d e l ha hb hc hd he hl =
    let fifth = or_else-IsLine e l he hl in
    let fourth = or_else-IsLine d (or_else e l) hd fifth in
    let third = or_else-IsLine c (or_else d (or_else e l)) hc fourth in
    let second = or_else-IsLine b (or_else c (or_else d (or_else e l))) hb third in
    or_else-IsLine a (or_else b (or_else c (or_else d (or_else e l)))) ha second

classify_trimmed-IsLine : (raw : Bytes) → IsLine (classify_trimmed raw (trim_both raw))
unfolding classify_trimmed parse_list_item
classify_trimmed-IsLine raw =
    let t = trim_both raw in
    let item = parse_list_item raw in
    chain-IsLine (scan_hash raw t) (scan_drawer t) (scan_rule t) (parse_heading raw)
      (scan_item item) (record (line text) { text = t }) (scan_hash-AllLine raw t)
      (scan_drawer-AllLine t) (scan_rule-AllLine raw) (parse_heading-AllLine raw)
      (scan_item-AllLine item
        (parse_item_at-IsItem (length (take_while is_space raw)) (drop_while is_space raw)))
      (trimmed-IsClassified text raw 0 (cc))

-- For every line of bytes, the text of what the scanner says of it has no blank at either end, and
-- a heading has a level from 1 to 6.
pub classify-IsLine : (l : Bytes) → IsLine (classify l)
unfolding classify_raw
classify-IsLine l =
    let raw = trim_right is_trim l in
    elim (Bool-cases (empty (trim_both raw))) [
      | inl e ↦ rw e (bare-IsClassified _ _ (cc))
      | inr e ↦ rw e (classify_trimmed-IsLine raw)
    ]
