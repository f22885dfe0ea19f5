-- ===== src/Worker/Process/Options.antt =====
-- QCommandLineParser on the options that main declares: the law that is asked of a parser, and a
-- parser for which it holds.
use apfs_for_windows.Common.{
  All, Bool, Bool-cases, List, Option, Text, [], any, ap, codes, false, inl, inr, none, refl, some,
  text_eq, text_eq→eq, true, ◌≡◌, ◌||◌, ◌++◌, ◌∷◌, if◌then◌else◌,
}
use apfs_for_windows.Worker.Process.{Parsed}

-- An option on a command line: alone, or with the value that follows it.
pub data Given : Type 0 where
  flag : Text → Given
  option : Text → Text → Given

abbrev pub spell : List Given → List Text
spell [] = []
spell (flag name ∷ gs) = (codes "--" ++ name) ∷ spell gs
spell (option name value ∷ gs) = (codes "--" ++ name) ∷ value ∷ spell gs

abbrev pub is_flag : Text → Bool
is_flag name =
    text_eq name (codes "status")
    || text_eq name (codes "read-write")
    || text_eq name (codes "allow-raw-writes")

abbrev pub is_valued : Text → Bool
is_valued name =
    text_eq name (codes "target")
    || text_eq name (codes "mount")
    || text_eq name (codes "max-file-read-bytes")
    || text_eq name (codes "test-fault-exit-phase")
    || text_eq name (codes "test-fault-path")

-- The options are those that main declares, with and without a value.
abbrev pub is_declared : Given → Bool
is_declared (flag name) = is_flag name
is_declared (option name value) = is_valued name

abbrev pub gives : Text → Given → Bool
gives name (flag other) = text_eq other name
gives name (option other value) = text_eq other name

abbrev pub last_value : Text → Text → List Given → Text
last_value name default [] = default
last_value name default (flag other ∷ gs) = last_value name default gs
last_value name default (option other value ∷ gs) =
    last_value name (if text_eq other name then value else default) gs

-- What QCommandLineParser documents: an option is set if it is given, and its value is the one given
-- last, or its default.
pub record Parses (default : Text → Text) (parse : List Text → Parsed) : Type 0 where
  pub sets :
      (gs : List Given)
      → All (λ g. is_declared g ≡ true) gs
      → (name : Text) → (parse (spell gs)).is_set name ≡ any (gives name) gs
  pub values :
      (gs : List Given)
      → All (λ g. is_declared g ≡ true) gs
      → (name : Text) → (parse (spell gs)).value name ≡ last_value name (default name) gs

-- What a parser finds that has read the options.
abbrev pub ideal : (Text → Text) → List Given → Parsed
ideal default gs = record {
  is_set = λ name. any (gives name) gs;
  value = λ name. last_value name (default name) gs;
}

strip : Text → Text
strip (a ∷ b ∷ name) = name
strip name = []

-- Reads the options; the argument is an option that waits for its value.
scan : Option Text → List Text → List Given
unfolding strip
scan none (t ∷ ts) = elim (is_valued (strip t)) [
  | true ↦ scan (some (strip t)) ts
  | false ↦ flag (strip t) ∷ scan none ts
]
scan (some name) (t ∷ ts) = option name t ∷ scan none ts
scan none [] = []
scan (some name) [] = []

is_valued-is_flag : (name : Text) → is_flag name ≡ true → is_valued name ≡ false
unfolding text_eq
is_valued-is_flag name e = elim (Bool-cases (text_eq name (codes "status"))) [
  | inl h ↦ ap is_valued (text_eq→eq name (codes "status") h)
  | inr h ↦ elim (Bool-cases (text_eq name (codes "read-write"))) [
    | inl k ↦ ap is_valued (text_eq→eq name (codes "read-write") k)
    | inr k ↦ elim (Bool-cases (text_eq name (codes "allow-raw-writes"))) [
      | inl l ↦ ap is_valued (text_eq→eq name (codes "allow-raw-writes") l)
      | inr l ↦ neither e h k l
    ]
  ]
]
  where
    neither :
        is_flag name ≡ true
        → text_eq name (codes "status") ≡ false
        → text_eq name (codes "read-write") ≡ false
        → text_eq name (codes "allow-raw-writes") ≡ false
        → is_valued name ≡ false
    neither e h k l = cc

scan-spell : (gs : List Given) → All (λ g. is_declared g ≡ true) gs → scan none (spell gs) ≡ gs
unfolding scan strip text_eq
scan-spell [] d = refl
scan-spell (flag name ∷ gs) (d, ds) =
    rw (is_valued-is_flag name d) (ap (λ rest. flag name ∷ rest) (scan-spell gs ds))
scan-spell (option name value ∷ gs) (d, ds) =
    rw (d) (ap (λ rest. option name value ∷ rest) (scan-spell gs ds))

pub example_parse : (Text → Text) → List Text → Parsed
unfolding scan
example_parse default arguments = ideal default (scan none arguments)

pub example_parse-Parses : (default : Text → Text) → Parses default (example_parse default)
unfolding example_parse
example_parse-Parses default = record {
  sets = λ gs d name. ap (λ found. (ideal default found).is_set name) (scan-spell gs d);
  values = λ gs d name. ap (λ found. (ideal default found).value name) (scan-spell gs d);
}
