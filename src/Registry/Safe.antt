-- ===== src/Registry/Safe.antt =====
-- What src/reader_registry.cpp lets into the registry, and what it renders of it.
use duckdb_panduck.Base.{
  ◌≡◌, true, false, ◌||◌, List, [], ◌∷◌, Option, none, some, All, Bool-cases, inl, inr, or-true,
}
use duckdb_panduck.Registry.Calls.{
  BindInput, BindData, is_disabled, no_exts, given_options, with_options, register_bind, user_entry,
  register_all, scan_bound, register_call,
}
use duckdb_panduck.Registry.Names.{is_identifier, is_qualified_identifier}
use duckdb_panduck.Registry.{
  ReaderOption, ReaderEntry, OptionRow, Result, bind_options, bind_option, check_option,
  check_fields, cons_result, option_fields, is_arg_type, register, arg_matches_type,
}
use duckdb_panduck.Text.{Bytes, same, empty}

-- An option that may be rendered: the name is a name, and the argument a literal of its type.
pub record IsSafeOption (o : ReaderOption) : Type 0 where
  pub named : is_identifier o.param ≡ true
  pub literal : arg_matches_type o.arg_type o.arg ≡ true

-- A row whose function is a name, if it has one, and whose options may be rendered.
pub record IsSafeEntry (e : ReaderEntry) : Type 0 where
  pub function : (empty e.function || is_qualified_identifier e.function) ≡ true
  pub options : All IsSafeOption e.options

-- What a bind gives, where it gives anything.
pub record IsSafeData (d : BindData) : Type 0 where
  pub function : is_qualified_identifier d.function ≡ true
  pub exts : no_exts d.exts ≡ false
  pub options : All IsSafeOption d.options

module _ {A : Type 0} (P : A → Type 0) where
  -- Of a result that is no error.
  abbrev pub OnDone : Result A → Type 0
  OnDone (Result.failed e) = Unit
  OnDone (Result.done a) = P a

check_option-OnDone : (o : ReaderOption) → OnDone IsSafeOption (check_option o)
unfolding check_option
check_option-OnDone o = elim (Bool-cases (is_identifier o.param)) [
  | inr e ↦ rw e tt
  | inl e ↦ elim (Bool-cases (is_arg_type o.arg_type)) [
    | inr f ↦ rw (e, f) tt
    | inl f ↦ elim (Bool-cases (arg_matches_type o.arg_type o.arg)) [
      | inr g ↦ rw (e, f, g) tt
      | inl g ↦ elim (Bool-cases (empty o.intent)) [
        | inl h ↦ rw (e, f, g, h) tt
        | inr h ↦ rw (e, f, g, h) (record { named = e; literal = g })
      ]
    ]
  ]
]

bind_option-OnDone : (row : Option OptionRow) → OnDone IsSafeOption (bind_option row)
bind_option-OnDone none = tt
bind_option-OnDone (some row) = fields (option_fields row)
  where
    fields : (o : Option ReaderOption) → OnDone IsSafeOption (check_fields o)
    fields none = tt
    fields (some o) = check_option-OnDone o

bind_options-OnDone :
    (rows : List (Option OptionRow)) → OnDone (All IsSafeOption) (bind_options rows)
bind_options-OnDone [] = tt
bind_options-OnDone (row ∷ rows) =
    both (bind_option row) (bind_options rows) (bind_option-OnDone row) (bind_options-OnDone rows)
  where
    both :
        (r : Result ReaderOption) (rs : Result (List ReaderOption))
        → OnDone IsSafeOption r
        → OnDone (All IsSafeOption) rs
        → OnDone (All IsSafeOption) (cons_result r rs)
    both (Result.failed e) rs h k = tt
    both (Result.done o) (Result.failed e) h k = tt
    both (Result.done o) (Result.done os) h k = (h, k)

register_bind-OnDone :
    (kind : Bytes) (input : BindInput) → OnDone IsSafeData (register_bind kind input)
unfolding register_bind
register_bind-OnDone kind input = elim (Bool-cases (is_disabled input.allow)) [
  | inl e ↦ rw e tt
  | inr e ↦ elim (Bool-cases (is_qualified_identifier input.function)) [
    | inr f ↦ rw (e, f) tt
    | inl f ↦ elim (Bool-cases (no_exts input.exts)) [
      | inl g ↦ rw (e, f, g) tt
      | inr g ↦
          let rows = given_options input.options in
          rw (e, f, g) (options f g (bind_options rows) (bind_options-OnDone rows))
    ]
  ]
]
  where
    options :
        is_qualified_identifier input.function ≡ true
        → no_exts input.exts ≡ false
        → (r : Result (List ReaderOption)) → OnDone (All IsSafeOption) r
        → OnDone IsSafeData (with_options kind input r)
    options f g (Result.failed e) h = tt
    options f g (Result.done os) h = record { function = f; exts = g; options = h }

register-All :
    (P : ReaderEntry → Type 0) (entry : ReaderEntry) (es : List ReaderEntry)
    → P entry
    → All P es
    → All P (register entry es)
unfolding register
register-All P entry [] h hs = (h, tt)
register-All P entry (e ∷ es) h hs =
    let later = register-All P entry es h hs.1 in
    elim (Bool-cases (same e.ext entry.ext)) [ inl f ↦ rw f (h, hs.1) | inr f ↦ rw f (hs.0, later) ]

register_all-All :
    (d : BindData) (exts : List Bytes) (es : List ReaderEntry)
    → IsSafeData d
    → All IsSafeEntry es
    → All IsSafeEntry (register_all d exts es)
unfolding register_all user_entry
register_all-All d [] es h hs = hs
register_all-All d (raw ∷ exts) es h hs =
    let safe : IsSafeEntry (user_entry d raw) = record {
      function = rw h.function (or-true (empty d.function));
      options = h.options;
    } in
    register_all-All d exts (register (user_entry d raw) es) h
      (register-All IsSafeEntry (user_entry d raw) es safe hs)

-- A call that registers readers, whatever it is given, leaves a registry safe that was: the function
-- of every row is a plain or a qualified name or empty, the parameter of every option is a name, and
-- its argument a literal of its type.
pub register_call-AreSafe :
    (kind : Bytes) (input : BindInput) (es : List ReaderEntry)
    → All IsSafeEntry es
    → All IsSafeEntry (register_call kind input es)
register_call-AreSafe kind input es h =
    scan (register_bind kind input) (register_bind-OnDone kind input)
  where
    scan : (r : Result BindData) → OnDone IsSafeData r → All IsSafeEntry (scan_bound r es)
    scan (Result.failed e) d = h
    scan (Result.done data_) d = register_all-All data_ data_.exts es d h
