-- ===== src/Cli.antt =====
-- utils/cli-parser.h and cli-parser.cpp: the enumerations of the command line, and
-- `check_arguments`. Boost's parser is a parameter: `Given` is what the code reads of its
-- `variables_map`.
pub mod Enums
pub mod Decides
pub mod Arguments
pub mod Meanings
pub mod Expected
use delfos.Prelude.{
  ℕ, zero, suc, ◌+◌, ◌-◌, ◌/◌, ◌%◌, Bool, true, false, not, ◌&&◌, ◌||◌, List, [], ◌∷◌, ◌++◌, Option,
  none, some, Text, codes, text_eq, ltb, leb, ◌==◌, length, get_elem?, take, replicate,
  if◌then◌else◌,
}
use delfos.Monad.{Res, val, exit, broke, M, pure, gets, modify, leave_if, ◌>>=◌, ◌>>◌}

-- The loop of `get_enum`: the position of the first name that is the text.
unfoldable pub position : Text → List Text → Option ℕ
position a_text [] = none
position a_text (name ∷ names) =
    let rest = position a_text names in
    elim (text_eq a_text name) [
      | true ↦ some 0
      | false ↦ elim rest [ none ↦ none | some i ↦ some (suc i) ]
    ]

-- An `Enum` is its number: 0 is `undefined`, the defined names count from 1.
unfoldable pub get_enum : List Text → Text → ℕ
unfolding position
get_enum names a_text = elim (position a_text names) [ none ↦ 0 | some i ↦ suc i ]

-- `none` stands for a number beyond the array.
unfoldable pub get_string : List Text → ℕ → Option Text
get_string names zero = some (codes "undefined")
get_string names (suc i) = get_elem? names i

abbrev pub fake_module_names : List Text
fake_module_names =
    codes "ACM"
    ∷ codes "DAI"
    ∷ codes "Enzo"
    ∷ codes "GARI"
    ∷ codes "KPI"
    ∷ codes "LM"
    ∷ codes "PBX"
    ∷ codes "RM"
    ∷ codes "RTV"
    ∷ []

abbrev pub io_type_names : List Text
io_type_names = codes "asio" ∷ codes "wsm" ∷ []

abbrev pub log_min_severity_names : List Text
log_min_severity_names =
    codes "trace"
    ∷ codes "debug"
    ∷ codes "info"
    ∷ codes "warning"
    ∷ codes "error"
    ∷ codes "fatal"
    ∷ []

-- `io_type`, and the members of `wc::severity_level` that the code names
pub data IoType : Type 0 where
  asio wsm : IoType

pub data Severity : Type 0 where
  trace debug info warning error fatal : Severity

unfoldable pub as_severity : Text → Severity
as_severity text =
    if text_eq text (codes "trace")
    then trace
    else if text_eq text (codes "debug")
    then debug
    else if text_eq text (codes "info")
    then info
    else if text_eq text (codes "warning")
    then warning
    else if text_eq text (codes "error")
    then error
    else fatal

-- Whether each option was given, with its text where the code reads it.
pub record Given : Type 0 where
  pub help : Bool
  pub fake_module : Option Text
  pub io_type : Option Text
  pub number_of_threads_in_log_tests : Bool
  pub log_min_severity_syslog : Option Text
  pub log_min_severity_console : Option Text

-- The variables of the translation unit; the parser has stored the numbers in them.
pub record Settings : Type 0 where
  pub fake_module_cli : ℕ
  pub fake_instance_cli : ℕ
  pub io_type_cli : ℕ
  pub number_of_threads_in_log_tests : ℕ
  pub log_min_severity_syslog_cli : ℕ
  pub log_min_severity_console_cli : ℕ
  pub fake_module : Text
  pub fake_instance : Text
  pub io : IoType
  pub log_min_severity_syslog : Severity
  pub log_min_severity_console : Severity

-- "Check": the new value of an enumeration's variable, if the option was given.
unfoldable pub chosen : List Text → Option Text → ℕ → ℕ
unfolding get_enum
chosen names none old = old
chosen names (some text) old = get_enum names text

-- Whether the check fails.
unfoldable pub unknown : List Text → Option Text → Bool
unfolding get_enum
unknown names none = false
unknown names (some text) = get_enum names text == 0

abbrev pub text_of : List Text → ℕ → Text
text_of names i = elim (get_string names i) [ none ↦ [] | some text ↦ text ]

-- A module's name in four bytes.
unfoldable pub four : Text → Text
four name =
    if ltb 4 (length name)
    then take 4 name
    else if ltb (length name) 4
    then name ++ replicate (4 - length name) b' '
    else name

-- The decimal digits of a number, as a stream prints it; fuel counts them.
unfoldable pub decimal : ℕ → ℕ → Text
decimal zero n = []
decimal (suc fuel) n =
    let rest = decimal fuel (n / 10) in
    if ltb n 10 then (b'0' + n) ∷ [] else rest ++ ((b'0' + n % 10) ∷ [])

-- `std::setw` and `std::setfill`
unfoldable pub filled : ℕ → ℕ → Text → Text
filled width fill text = replicate (width - length text) fill ++ text

-- `unsigned int` has ten digits at most.
unfoldable pub two_digits : ℕ → Text
unfolding decimal filled
two_digits n = filled 2 b'0' (decimal 10 n)

-- `io` keeps its value for another text.
unfoldable pub io_of : Text → IoType → IoType
io_of text old =
    if text_eq text (codes "asio") then asio else if text_eq text (codes "wsm") then wsm else old

-- Leaving is `return false`.
unfoldable pub check_fake_module : Given → M Settings (Unit {0})
unfolding chosen unknown four get_string
check_fake_module a_vm = do
  modify (λ s. record s {
    fake_module_cli = chosen fake_module_names a_vm.fake_module s.fake_module_cli;
  })
  leave_if (unknown fake_module_names a_vm.fake_module) broke
  modify (λ s. record s { fake_module = four (text_of fake_module_names s.fake_module_cli) })

unfoldable pub check_fake_instance : M Settings (Unit {0})
unfolding two_digits
check_fake_instance = do
  n ← gets (λ s. s.fake_instance_cli)
  leave_if (n == 0 || ltb 99 n) broke
  modify (λ s. record s { fake_instance = two_digits s.fake_instance_cli })

unfoldable pub check_io_type : Given → M Settings (Unit {0})
unfolding chosen unknown io_of get_string
check_io_type a_vm = do
  modify (λ s. record s { io_type_cli = chosen io_type_names a_vm.io_type s.io_type_cli })
  leave_if (unknown io_type_names a_vm.io_type) broke
  modify (λ s. record s { io = io_of (text_of io_type_names s.io_type_cli) s.io })

unfoldable pub check_number_of_threads : Given → M Settings (Unit {0})
check_number_of_threads a_vm = do
  n ← gets (λ s. s.number_of_threads_in_log_tests)
  leave_if (a_vm.number_of_threads_in_log_tests && (n == 0)) broke

unfoldable pub check_severities : Given → M Settings (Unit {0})
unfolding chosen unknown as_severity get_string
check_severities a_vm = do
  modify (λ s. record s {
    log_min_severity_syslog_cli =
        chosen log_min_severity_names a_vm.log_min_severity_syslog s.log_min_severity_syslog_cli;
  })
  leave_if (unknown log_min_severity_names a_vm.log_min_severity_syslog) broke
  modify (λ s. record s {
    log_min_severity_syslog =
        as_severity (text_of log_min_severity_names s.log_min_severity_syslog_cli);
  })
  modify (λ s. record s {
    log_min_severity_console_cli =
        chosen log_min_severity_names a_vm.log_min_severity_console s.log_min_severity_console_cli;
  })
  leave_if (unknown log_min_severity_names a_vm.log_min_severity_console) broke
  modify (λ s. record s {
    log_min_severity_console =
        as_severity (text_of log_min_severity_names s.log_min_severity_console_cli);
  })

unfoldable pub check_arguments : Given → M Settings (Unit {0})
unfolding check_fake_module check_fake_instance check_io_type check_number_of_threads
    check_severities
check_arguments a_vm = do
  leave_if a_vm.help broke
  check_fake_module a_vm
  check_fake_instance
  check_io_type a_vm
  check_number_of_threads a_vm
  check_severities a_vm
