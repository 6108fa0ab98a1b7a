-- ===== src/Cli/Meanings.antt =====
-- What the names of the command line mean, by tables, apart from the code of `check_arguments`.
use delfos.Prelude.{
  subst, ℕ, suc, ◌+◌, ◌≡◌, ◌≢◌, refl, ap, ◌∙◌, Bool, true, false, List, [], ◌∷◌, Option, none, some,
  Text, codes, text_eq, ◌==◌, if◌then◌else◌, arith,
}
use delfos.Cli.{
  IoType, Severity, fake_module_names, io_type_names, log_min_severity_names, position, get_enum,
  get_string, unknown, chosen, text_of, io_of, as_severity, four,
}

-- A name that an option may have, its number, and what the name stands for.
pub record Meaning (A : Type 0) : Type 0 where
  pub name : Text
  pub number : ℕ
  pub value : A

abbrev means : {A : Type 0} → Text → ℕ → A → Meaning A
means name number value = record { name = name; number = number; value = value }

abbrev pub modules : List (Meaning Text)
modules =
    means (codes "ACM") 1 (codes "ACM ")
    ∷ means (codes "DAI") 2 (codes "DAI ")
    ∷ means (codes "Enzo") 3 (codes "Enzo")
    ∷ means (codes "GARI") 4 (codes "GARI")
    ∷ means (codes "KPI") 5 (codes "KPI ")
    ∷ means (codes "LM") 6 (codes "LM  ")
    ∷ means (codes "PBX") 7 (codes "PBX ")
    ∷ means (codes "RM") 8 (codes "RM  ")
    ∷ means (codes "RTV") 9 (codes "RTV ")
    ∷ []

abbrev pub io_types : List (Meaning IoType)
io_types = means (codes "asio") 1 IoType.asio ∷ means (codes "wsm") 2 IoType.wsm ∷ []

abbrev pub severities : List (Meaning Severity)
severities =
    means (codes "trace") 1 Severity.trace
    ∷ means (codes "debug") 2 Severity.debug
    ∷ means (codes "info") 3 Severity.info
    ∷ means (codes "warning") 4 Severity.warning
    ∷ means (codes "error") 5 Severity.error
    ∷ means (codes "fatal") 6 Severity.fatal
    ∷ []

-- The first row that passes a test.
abbrev pub find_row : {A : Type 0} → (Meaning A → Bool) → List (Meaning A) → Option (Meaning A)
find_row test [] = none
find_row test (r ∷ rs) = let rest = find_row test rs in if test r then some r else rest

-- The meaning of an option: of its text if it was given, of the default's number otherwise.
abbrev pub meaning : {A : Type 0} → List (Meaning A) → Option Text → ℕ → Option (Meaning A)
meaning rows none default = find_row (λ r. r.number == default) rows
meaning rows (some text) default = find_row (λ r. text_eq text r.name) rows

abbrev pub Known : {A : Type 0} → List (Meaning A) → ℕ → Type 0
Known rows default = find_row (λ r. r.number == default) rows ≢ none

module _ {A : Type 0} where
  unfoldable pub names_of : List (Meaning A) → List Text
  names_of [] = []
  names_of (r ∷ rs) = r.name ∷ names_of rs

  -- A property of every row, and rows that count from a number.
  abbrev pub AllRows : (Meaning A → Type 0) → List (Meaning A) → Type 0
  AllRows P [] = Unit
  AllRows P (r ∷ rs) = P r × AllRows P rs

  abbrev pub Counted : ℕ → List (Meaning A) → Type 0
  Counted k [] = Unit
  Counted k (r ∷ rs) = (r.number ≡ k) × Counted (suc k) rs

  row_at : (b : Bool) (x r : Meaning A) → (if b then some x else none) ≡ some r → b ≡ true
  row_at true x r e = refl
  row_at false x r e = cc

  found :
      (P : Meaning A → Type 0) (test : Meaning A → Bool) (rows : List (Meaning A)) (r : Meaning A)
      → AllRows P rows
      → find_row test rows ≡ some r
      → P r × (test r ≡ true)
  found P test [] r h e = absurd cc
  found P test (x ∷ rs) r h e = split (found P test rs r h.1) (test x) refl e
    where
      split :
          (find_row test rs ≡ some r → P r × (test r ≡ true))
          → (b : Bool) → test x ≡ b
          → (if b then some x else find_row test rs) ≡ some r
          → P r × (test r ≡ true)
      split later true t e = let same : x ≡ r = cc in (subst P same h.0, cc)
      split later false t e = later e

  no_property : (rows : List (Meaning A)) → AllRows (λ _. Unit) rows
  no_property [] = tt
  no_property (r ∷ rs) = (tt, no_property rs)

  -- The number of a position, against the row.
  Same : ℕ → Option ℕ → Option (Meaning A) → Type 0
  Same k none none = Unit
  Same k (some i) (some r) = r.number ≡ k + i
  Same k none (some r) = ⊥
  Same k (some i) none = ⊥

  next_Same :
      (k : ℕ) (i : Option ℕ) (r : Option (Meaning A))
      → Same (suc k) i r
      → Same k (elim i [ none ↦ none | some j ↦ some (suc j) ]) r
  unfolding Same
  next_Same k none none h = tt
  next_Same k (some i) (some r) h = omega (arith, h)
  next_Same k none (some r) h = absurd h
  next_Same k (some i) none h = absurd h

  position-Same :
      (k : ℕ) (text : Text) (rows : List (Meaning A))
      → Counted k rows
      → Same k (position text (names_of rows)) (find_row (λ r. text_eq text r.name) rows)
  unfolding Same position names_of
  position-Same k text [] h = tt
  position-Same k text (r ∷ rs) h = split (text_eq text r.name) (position-Same (suc k) text rs h.1)
    where
      split :
          (b : Bool)
          → Same (suc k) (position text (names_of rs)) (find_row (λ x. text_eq text x.name) rs)
          → Same k
              (elim b [
                | true ↦ some 0
                | false ↦ elim (position text (names_of rs)) [ none ↦ none | some i ↦ some (suc i) ]
              ])
              (if b then some r else find_row (λ x. text_eq text x.name) rs)
      split true later = omega (arith, h.0)
      split false later = next_Same k _ _ later

  -- What the code finds of an option, against its meaning.
  unfoldable pub Reads : List Text → Option Text → ℕ → Option (Meaning A) → Type 0
  unfolding unknown chosen
  Reads names given default none = unknown names given ≡ true
  Reads names given default (some r) =
      (unknown names given ≡ false) × (chosen names given default ≡ r.number)

  module _ (rows : List (Meaning A)) (counted : Counted 1 rows) where
    text-Reads :
        (text : Text) (default : ℕ) (i : Option ℕ) (r : Option (Meaning A))
        → position text (names_of rows) ≡ i
        → Same 1 i r
        → Reads (names_of rows) (some text) default r
    unfolding Reads Same unknown chosen get_enum
    text-Reads text default none none e h = ap (λ p. (elim p [ none ↦ 0 | some j ↦ suc j ]) == 0) e
    text-Reads text default none (some r) e h = absurd h
    text-Reads text default (some i) none e h = absurd h
    text-Reads text default (some i) (some r) e h = (
      ap (λ p. (elim p [ none ↦ 0 | some j ↦ suc j ]) == 0) e ∙ ground arith,
      ap (λ p. elim p [ none ↦ 0 | some j ↦ suc j ]) e ∙ omega (arith, h),
    )

    default-Reads :
        (default : ℕ) (r : Option (Meaning A))
        → Known rows default
        → find_row (λ x. x.number == default) rows ≡ r
        → Reads (names_of rows) none default r
    unfolding Reads unknown chosen
    default-Reads default none known e = absurd (known e)
    default-Reads default (some r) known e =
        let test = (found (λ _. Unit) (λ x. x.number == default) rows r (no_property rows) e).1 in
        (refl, ground (arith, test))

    pub meaning-Reads :
        (given : Option Text) (default : ℕ)
        → Known rows default
        → Reads (names_of rows) given default (meaning rows given default)
    meaning-Reads none default known = default-Reads default _ known refl
    meaning-Reads (some text) default known =
        text-Reads text default _ _ refl (position-Same 1 text rows counted)

abbrev pub ModuleFits : Meaning Text → Type 0
ModuleFits r = four (text_of fake_module_names r.number) ≡ r.value

abbrev pub IoFits : Meaning IoType → Type 0
IoFits r = (old : IoType) → io_of (text_of io_type_names r.number) old ≡ r.value

abbrev pub SeverityFits : Meaning Severity → Type 0
SeverityFits r = as_severity (text_of log_min_severity_names r.number) ≡ r.value

pub modules-ModuleFits : AllRows ModuleFits modules
unfolding four get_string
modules-ModuleFits = (refl, (refl, (refl, (refl, (refl, (refl, (refl, (refl, (refl, tt)))))))))

pub io_types-IoFits : AllRows IoFits io_types
unfolding io_of get_string text_eq
io_types-IoFits = (λ old. refl, (λ old. refl, tt))

pub severities-SeverityFits : AllRows SeverityFits severities
unfolding as_severity get_string text_eq
severities-SeverityFits = (refl, (refl, (refl, (refl, (refl, (refl, tt))))))

pub modules-Counted : Counted 1 modules
modules-Counted = (refl, (refl, (refl, (refl, (refl, (refl, (refl, (refl, (refl, tt)))))))))

pub io_types-Counted : Counted 1 io_types
io_types-Counted = (refl, (refl, tt))

pub severities-Counted : Counted 1 severities
severities-Counted = (refl, (refl, (refl, (refl, (refl, (refl, tt))))))

-- A property of the meaning that is found.
pub meaning-Fits :
    {A : Type 0} (P : Meaning A → Type 0) (rows : List (Meaning A)) (given : Option Text)
    (default : ℕ) (r : Meaning A)
    → AllRows P rows
    → meaning rows given default ≡ some r
    → P r
meaning-Fits P rows none default r h e = (found P (λ x. x.number == default) rows r h e).0
meaning-Fits P rows (some text) default r h e = (found P (λ x. text_eq text x.name) rows r h e).0
