-- ===== src/Tests/Clis.antt =====
-- The command line `--fake-module LM --io-type wsm`.
use delfos.Prelude.{
  ℕ, ◌+◌, ◌*◌, ◌<◌, ◌≡◌, ◌≢◌, refl, true, false, [], ◌∷◌, none, some, codes, text_eq, arith,
}
use delfos.Monad.{val}
use delfos.Cli.{
  Given, Settings, IoType, Severity, fake_module_names, log_min_severity_names, position, get_enum,
  get_string, two_digits, check_arguments,
}
use delfos.Cli.Enums.{distinct, get_string-get_enum, get_enum-get_string}
use delfos.Cli.Arguments.{two_digits_read}
use delfos.Cli.Expected.{check_arguments-expected}

abbrev given : Given
given = record {
  help = false;
  fake_module = some (codes "LM");
  io_type = some (codes "wsm");
  number_of_threads_in_log_tests = false;
  log_min_severity_syslog = none;
  log_min_severity_console = none;
}

-- The defaults.
abbrev settings : Settings
settings = record {
  fake_module_cli = 3;
  fake_instance_cli = 1;
  io_type_cli = 1;
  number_of_threads_in_log_tests = 3;
  log_min_severity_syslog_cli = 4;
  log_min_severity_console_cli = 4;
  fake_module = [];
  fake_instance = [];
  io = IoType.asio;
  log_min_severity_syslog = Severity.trace;
  log_min_severity_console = Severity.trace;
}

-- The settings that follow.
abbrev module_set : Settings
module_set = record settings {
  fake_module_cli = 6;
  io_type_cli = 2;
  fake_module = codes "LM  ";
  fake_instance = codes "01";
  io = IoType.wsm;
  log_min_severity_syslog = Severity.warning;
  log_min_severity_console = Severity.warning;
}

check_arguments-expected_example :
    ((check_arguments given settings).0 ≡ val tt)
    × ((check_arguments given settings).1 ≡ module_set)
unfolding text_eq
check_arguments-expected_example =
    check_arguments-expected given settings (λ e. cc) (λ e. cc) (λ e. cc) (λ e. cc)

is_debug : get_enum log_min_severity_names (codes "debug") ≢ 0
unfolding get_enum position text_eq
is_debug e = cc

get_string-get_enum_example :
    get_string log_min_severity_names (get_enum log_min_severity_names (codes "debug"))
    ≡ some (codes "debug")
get_string-get_enum_example = get_string-get_enum log_min_severity_names (codes "debug") is_debug

modules_distinct : distinct fake_module_names ≡ true
unfolding distinct position text_eq
modules_distinct = refl

sixth_module : get_string fake_module_names 6 ≡ some (codes "LM")
unfolding get_string
sixth_module = refl

get_enum-get_string_example : get_enum fake_module_names (codes "LM") ≡ 6
get_enum-get_string_example =
    get_enum-get_string fake_module_names 5 (codes "LM") modules_distinct sixth_module

two_digits_read_example :
    (d e : ℕ) × (two_digits 7 ≡ (b'0' + d) ∷ (b'0' + e) ∷ [])
    × (d < 10)
    × (e < 10)
    × (10 * d + e ≡ 7)
two_digits_read_example = two_digits_read 7 (omega arith)
