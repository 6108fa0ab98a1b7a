-- ===== src/Cli/Expected.antt =====
-- What a command line is to make of the settings, by the tables of its names.
use delfos.Prelude.{
  ◌+◌, ◌/◌, ◌%◌, ◌<◌, ◌≡◌, refl, ap, ◌∙◌, Bool, true, false, ◌&&◌, ◌||◌, [], ◌∷◌, Option, none,
  some, Text, ltb, ◌==◌, arith,
}
use delfos.Monad.{Res, val, exit, broke}
use delfos.Cli.{
  Given, Settings, IoType, Severity, fake_module_names, io_type_names, log_min_severity_names,
  chosen, check_arguments,
}
use delfos.Cli.Decides.{verdict}
use delfos.Cli.Arguments.{acceptable, settled, check_arguments-Decides, two_digits_lem}
use delfos.Cli.Meanings.{
  Meaning, modules, io_types, severities, meaning, Known, names_of, Reads, meaning-Reads,
  ModuleFits, IoFits, SeverityFits, modules-ModuleFits, io_types-IoFits, severities-SeverityFits,
  modules-Counted, io_types-Counted, severities-Counted, meaning-Fits,
}

-- The settings that the meanings of the four options amount to.
abbrev pub with_meanings :
    Settings → Meaning Text → Meaning IoType → Meaning Severity → Meaning Severity → Settings
with_meanings s m i y c = record s {
  fake_module_cli = m.number;
  io_type_cli = i.number;
  log_min_severity_syslog_cli = y.number;
  log_min_severity_console_cli = c.number;
  fake_module = m.value;
  fake_instance = (b'0' + s.fake_instance_cli / 10) ∷ (b'0' + s.fake_instance_cli % 10) ∷ [];
  io = i.value;
  log_min_severity_syslog = y.value;
  log_min_severity_console = c.value;
}

-- The settings, or none where the command line is to be refused.
abbrev outcome :
    Bool
    → Option (Meaning Text)
    → Option (Meaning IoType)
    → Option (Meaning Severity)
    → Option (Meaning Severity)
    → Settings
    → Option Settings
outcome true m i y c s = none
outcome false none i y c s = none
outcome false (some m) none y c s = none
outcome false (some m) (some i) none c s = none
outcome false (some m) (some i) (some y) none s = none
outcome false (some m) (some i) (some y) (some c) s = some (with_meanings s m i y c)

module _ (a_vm : Given) where
  -- Help was asked for, the instance is not from 1 to 99, or 0 threads are given.
  abbrev pub refused : Settings → Bool
  refused s =
      a_vm.help
      || (s.fake_instance_cli == 0
          || (ltb 99 s.fake_instance_cli
              || (a_vm.number_of_threads_in_log_tests && (s.number_of_threads_in_log_tests == 0))))

  -- What the command line is to make of the settings; `none` where it is to be refused.
  abbrev pub expected : Settings → Option Settings
  expected s =
      outcome (refused s) (meaning modules a_vm.fake_module s.fake_module_cli)
        (meaning io_types a_vm.io_type s.io_type_cli)
        (meaning severities a_vm.log_min_severity_syslog s.log_min_severity_syslog_cli)
        (meaning severities a_vm.log_min_severity_console s.log_min_severity_console_cli) s

  -- A run of `check_arguments`, against the settings that are expected.
  abbrev pub Agrees : Res (Unit {0}) × Settings → Option Settings → Type 0
  Agrees run none = run.0 ≡ exit broke
  Agrees run (some s) = (run.0 ≡ val tt) × (run.1 ≡ s)

  refuses : (s : Settings) → acceptable a_vm s ≡ false → (check_arguments a_vm s).0 ≡ exit broke
  refuses s e = (check_arguments-Decides a_vm).says s ∙ ap verdict e

  settled-with_meanings :
      (s : Settings) (m : Meaning Text) (i : Meaning IoType) (y c : Meaning Severity)
      → s.fake_instance_cli < 100
      → chosen fake_module_names a_vm.fake_module s.fake_module_cli ≡ m.number
      → chosen io_type_names a_vm.io_type s.io_type_cli ≡ i.number
      → chosen log_min_severity_names a_vm.log_min_severity_syslog s.log_min_severity_syslog_cli
        ≡ y.number
      → chosen log_min_severity_names a_vm.log_min_severity_console s.log_min_severity_console_cli
        ≡ c.number
      → ModuleFits m
      → IoFits i
      → SeverityFits y
      → SeverityFits c
      → settled a_vm s ≡ with_meanings s m i y c
  settled-with_meanings s m i y c small em ei ey ec fm fi fy fc =
      rw (em, ei, ey, ec, fm, fi s.io, fy, fc, two_digits_lem s.fake_instance_cli small) refl

  agreed :
      (s : Settings) (b : Bool) (m : Option (Meaning Text)) (i : Option (Meaning IoType))
      (y c : Option (Meaning Severity))
      → refused s ≡ b
      → Reads fake_module_names a_vm.fake_module s.fake_module_cli m
      → Reads io_type_names a_vm.io_type s.io_type_cli i
      → Reads log_min_severity_names a_vm.log_min_severity_syslog s.log_min_severity_syslog_cli y
      → Reads log_min_severity_names a_vm.log_min_severity_console s.log_min_severity_console_cli c
      → ((r : Meaning Text) → m ≡ some r → ModuleFits r)
      → ((r : Meaning IoType) → i ≡ some r → IoFits r)
      → ((r : Meaning Severity) → y ≡ some r → SeverityFits r)
      → ((r : Meaning Severity) → c ≡ some r → SeverityFits r)
      → Agrees (check_arguments a_vm s) (outcome b m i y c s)
  unfolding Reads
  agreed s true m i y c e rm ri ry rc fm fi fy fc = refuses s (ground (arith, e))
  agreed s false none i y c e rm ri ry rc fm fi fy fc = refuses s (ground (arith, rm))
  agreed s false (some m) none y c e rm ri ry rc fm fi fy fc = refuses s (ground (arith, ri))
  agreed s false (some m) (some i) none c e rm ri ry rc fm fi fy fc = refuses s (ground (arith, ry))
  agreed s false (some m) (some i) (some y) none e rm ri ry rc fm fi fy fc =
      refuses s (ground (arith, rc))
  agreed s false (some m) (some i) (some y) (some c) e rm ri ry rc fm fi fy fc =
      let good : acceptable a_vm s ≡ true = ground (arith, e, rm.0, ri.0, ry.0, rc.0) in
      let small : s.fake_instance_cli < 100 = ground (arith, e) in
      (
        (check_arguments-Decides a_vm).says s ∙ ap verdict good,
        (check_arguments-Decides a_vm).sets s good
            ∙ settled-with_meanings s m i y c small rm.1 ri.1 ry.1 rc.1 (fm m refl) (fi i refl)
                (fy y refl) (fc c refl),
      )

  -- If the defaults of the four options with names are numbers of names, then `check_arguments`
  -- returns false exactly where help is asked for, a name given is not one of the known, the
  -- instance is not from 1 to 99 or the number of threads is given as 0. Otherwise it returns true
  -- and has set, from the name given or else the default, the number of each of the four names and
  -- what it stands for: the module's four bytes, the kind of io and the two severities; and the two
  -- digits of the instance; and nothing else.
  pub check_arguments-expected :
      (s : Settings)
      → Known modules s.fake_module_cli
      → Known io_types s.io_type_cli
      → Known severities s.log_min_severity_syslog_cli
      → Known severities s.log_min_severity_console_cli
      → Agrees (check_arguments a_vm s) (expected s)
  unfolding names_of
  check_arguments-expected s km ki ky kc =
      agreed s (refused s) _ _ _ _ refl
        (meaning-Reads modules modules-Counted a_vm.fake_module s.fake_module_cli km)
        (meaning-Reads io_types io_types-Counted a_vm.io_type s.io_type_cli ki)
        (meaning-Reads severities severities-Counted a_vm.log_min_severity_syslog
          s.log_min_severity_syslog_cli ky)
        (meaning-Reads severities severities-Counted a_vm.log_min_severity_console
          s.log_min_severity_console_cli kc)
        (λ r.
          meaning-Fits ModuleFits modules a_vm.fake_module s.fake_module_cli r modules-ModuleFits)
        (λ r. meaning-Fits IoFits io_types a_vm.io_type s.io_type_cli r io_types-IoFits)
        (λ r.
          meaning-Fits SeverityFits severities a_vm.log_min_severity_syslog
            s.log_min_severity_syslog_cli r severities-SeverityFits)
        (λ r.
          meaning-Fits SeverityFits severities a_vm.log_min_severity_console
            s.log_min_severity_console_cli r severities-SeverityFits)
