-- ===== src/Textile/Marks.antt =====
-- Block markers (libpanduck/src/textile_scanner.cpp, ParseMarker).
use duckdb_panduck.Base.{
  ℕ, zero, suc, ◌<◌, ◌≤◌, ◌≡◌, ◌≢◌, refl, ap, ◌∙◌, true, [], ◌∷◌, ◌++◌, arith, length, All, take,
  drop, Option, none, some, length-drop,
}
use duckdb_panduck.Textile.{Marker, with_group, groups_loop, parse_marker, with_body, closing}
use duckdb_panduck.Text.Find.{find-Lacks, take-append, drop-suc-append}
use duckdb_panduck.Text.Lines.{Lacks}
use duckdb_panduck.Text.While.{take_while-All, drop_while-All}
use duckdb_panduck.Text.{Bytes, find, drop_while, is_alnum}

groups_loop_skip :
    (fuel k c : ℕ) (s : Bytes) (m : Marker) (o : Option ℕ)
    → ((t : Bytes) (m : Marker) → length t ≤ length s → groups_loop fuel t m ≡ groups_loop k t m)
    → find (closing c) s ≡ o
    → groups_loop (suc fuel) (c ∷ s) m ≡ groups_loop (suc k) (c ∷ s) m
unfolding groups_loop
groups_loop_skip fuel k c s m none ih e = rw e refl
groups_loop_skip fuel k c s m (some n) ih e =
    rw
      (
        e,
        ih (drop (suc n) s) (with_group c (take n s) m) (rw (length-drop (suc n) s) (omega arith)),
      )
      refl

-- The loop over the attribute groups never runs out of fuel: any that exceeds the line's length
-- gives the same result.
groups_loop_fuel :
    (fuel k : ℕ) (s : Bytes) (m : Marker)
    → length s < fuel
    → length s < k
    → groups_loop fuel s m ≡ groups_loop k s m
unfolding groups_loop
groups_loop_fuel zero k s m h hk = absurd (omega arith)
groups_loop_fuel (suc fuel) zero s m h hk = absurd (omega arith)
groups_loop_fuel (suc fuel) (suc k) [] m h hk = refl
groups_loop_fuel (suc fuel) (suc k) (c ∷ s) m h hk =
    groups_loop_skip fuel k c s m (find (closing c) s)
      (λ t n le. groups_loop_fuel fuel k t n (omega arith) (omega arith)) refl

-- A class, a hash and an id, in parentheses.
class_group-both :
    (cls id : Bytes) (m : Marker)
    → Lacks b'#' cls
    → with_group b'(' (cls ++ (b'#' ∷ id)) m ≡ record m { css_class = cls; id = id }
unfolding with_group
class_group-both cls id m h = rw (find-Lacks b'#' cls id h) (
    ap (λ x. record m { css_class = x; id = drop (suc (length cls)) (cls ++ (b'#' ∷ id)) })
      (take-append cls (b'#' ∷ id))
    ∙ ap (λ x. record m { css_class = cls; id = x }) (drop-suc-append cls b'#' id))

groups_loop-group :
    (fuel : ℕ) (value rest : Bytes) (m : Marker)
    → Lacks b')' value
    → groups_loop (suc fuel) (b'(' ∷ (value ++ (b')' ∷ rest))) m
      ≡ groups_loop fuel rest (with_group b'(' value m)
unfolding groups_loop
groups_loop-group fuel value rest m h =
    rw (find-Lacks b')' value rest h)
      (rw (drop-suc-append value b')' rest) (rw (take-append value (b')' ∷ rest)) refl))

abbrev pub titled : Bytes → Bytes → Bytes → Bytes → Bytes
titled name cls id body = name ++ (b'(' ∷ ((cls ++ (b'#' ∷ id)) ++ (b')' ∷ b'.' ∷ b' ' ∷ body)))

group_then_dot :
    (fuel : ℕ) (name cls id body : Bytes)
    → Lacks b'#' cls
    → Lacks b')' (cls ++ (b'#' ∷ id))
    → with_body (
        groups_loop
          (suc (suc fuel))
          (b'(' ∷ ((cls ++ (b'#' ∷ id)) ++ (b')' ∷ b'.' ∷ b' ' ∷ body)))
          (record { name = name; style = []; css_class = []; id = [] }))
      ≡ some (record { name = name; style = []; css_class = cls; id = id }, body)
unfolding groups_loop drop_while
group_then_dot fuel name cls id body h k =
    let m : Marker = record { name = name; style = []; css_class = []; id = [] } in
    ap with_body (
      groups_loop-group (suc fuel) (cls ++ (b'#' ∷ id)) (b'.' ∷ b' ' ∷ body) m k
      ∙ ap (λ x. groups_loop (suc fuel) (b'.' ∷ b' ' ∷ body) x) (class_group-both cls id m h))

-- A marker written as a name of letters and digits, with a class and an id in parentheses, a dot and
-- a space, is read back as that name, class and id, and the body behind it, where neither holds a
-- closing parenthesis and the class holds no hash.
pub parse_marker-titled :
    (name cls id body : Bytes)
    → name ≢ []
    → All (λ c. is_alnum c ≡ true) name
    → Lacks b'#' cls
    → Lacks b')' (cls ++ (b'#' ∷ id))
    → parse_marker (titled name cls id body)
      ≡ some (record { name = name; style = []; css_class = cls; id = id }, body)
unfolding parse_marker
parse_marker-titled [] cls id body ne all h k = absurd (ne refl)
parse_marker-titled (c ∷ name) cls id body ne all h k =
    let group = (cls ++ (b'#' ∷ id)) ++ (b')' ∷ b'.' ∷ b' ' ∷ body) in
    let fuel = length (name ++ (b'(' ∷ group)) in
    rw (take_while-All is_alnum (c ∷ name) b'(' group all refl) (
      rw (drop_while-All is_alnum (c ∷ name) b'(' group all refl)
        (group_then_dot fuel (c ∷ name) cls id body h k))
