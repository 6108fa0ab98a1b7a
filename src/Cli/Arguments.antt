-- ===== src/Cli/Arguments.antt =====
-- When `check_arguments` accepts the command line, and what it sets then.
use delfos.Prelude.{
  ℕ, ◌+◌, ◌-◌, ◌*◌, ◌/◌, ◌%◌, ◌<◌, ◌≡◌, refl, Bool, true, false, not, ◌&&◌, ◌||◌, [], ◌∷◌, Text,
  ltb, ◌==◌, length, replicate, length-append, length-take, length-replicate, arith,
}
use delfos.Cli.{
  Given, Settings, fake_module_names, io_type_names, log_min_severity_names, unknown, chosen,
  text_of, io_of, as_severity, four, decimal, filled, two_digits, check_fake_module,
  check_fake_instance, check_io_type, check_number_of_threads, check_severities, check_arguments,
}
use delfos.Cli.Decides.{
  Decides, Decides-modify, Decides-leave_if, Decides-read, Decides-gate, Decides-same, Decides-bind,
  named,
}

length-four : (name : Text) → length (four name) ≡ 4
unfolding four
length-four name = ground (
  arith,
  length-take 4 name,
  length-append name (replicate (4 - length name) b' '),
  length-replicate {A = ℕ} (4 - length name) b' ',
)

tidy :
    (h m i o t x y : Bool)
    → (h && ((m && true) && ((i && true) && ((o && true) && (t && (x && (y && true)))))))
      ≡ (h && (m && (i && (o && (t && (x && y))))))
tidy false m i o t x y = refl
tidy true false i o t x y = refl
tidy true true false o t x y = refl
tidy true true true false t x y = refl
tidy true true true true false x y = refl
tidy true true true true true false y = refl
tidy true true true true true true false = refl
tidy true true true true true true true = refl

pub two_digits_lem : (n : ℕ) → n < 100 → two_digits n ≡ (b'0' + n / 10) ∷ (b'0' + n % 10) ∷ []
unfolding two_digits decimal filled
two_digits_lem n h = ground arith

module _ (a_vm : Given) where
  -- What the tests of `check_arguments` amount to, in its own terms.
  abbrev pub acceptable : Settings → Bool
  acceptable s =
      not a_vm.help
      && (not (unknown fake_module_names a_vm.fake_module)
          && (not (s.fake_instance_cli == 0 || ltb 99 s.fake_instance_cli)
              && (not (unknown io_type_names a_vm.io_type)
                  && (not (
                        a_vm.number_of_threads_in_log_tests
                        && (s.number_of_threads_in_log_tests == 0))
                      && (not (unknown log_min_severity_names a_vm.log_min_severity_syslog)
                          && not (unknown log_min_severity_names a_vm.log_min_severity_console))))))

  -- What `check_arguments` sets then.
  abbrev pub settled : Settings → Settings
  settled s =
      let module_cli = chosen fake_module_names a_vm.fake_module s.fake_module_cli in
      let type_cli = chosen io_type_names a_vm.io_type s.io_type_cli in
      let syslog_cli =
        chosen log_min_severity_names a_vm.log_min_severity_syslog s.log_min_severity_syslog_cli in
      let console_cli =
        chosen log_min_severity_names a_vm.log_min_severity_console
          s.log_min_severity_console_cli in
      record s {
        fake_module_cli = module_cli;
        io_type_cli = type_cli;
        log_min_severity_syslog_cli = syslog_cli;
        log_min_severity_console_cli = console_cli;
        fake_module = four (text_of fake_module_names module_cli);
        fake_instance = two_digits s.fake_instance_cli;
        io = io_of (text_of io_type_names type_cli) s.io;
        log_min_severity_syslog = as_severity (text_of log_min_severity_names syslog_cli);
        log_min_severity_console = as_severity (text_of log_min_severity_names console_cli);
      }

  fake_module-Decides :
      Decides
        (check_fake_module a_vm)
        (λ s. true && (not (unknown fake_module_names a_vm.fake_module) && true))
        (λ s.
          let i = chosen fake_module_names a_vm.fake_module s.fake_module_cli in
          record s { fake_module_cli = i; fake_module = four (text_of fake_module_names i) })
  unfolding check_fake_module
  fake_module-Decides =
      named (unknown fake_module_names a_vm.fake_module)
        (λ s. record s {
          fake_module_cli = chosen fake_module_names a_vm.fake_module s.fake_module_cli;
        })
        (λ s. record s { fake_module = four (text_of fake_module_names s.fake_module_cli) })

  fake_instance-Decides :
      Decides check_fake_instance
        (λ s. not (s.fake_instance_cli == 0 || ltb 99 s.fake_instance_cli) && true)
        (λ s. record s { fake_instance = two_digits s.fake_instance_cli })
  unfolding check_fake_instance
  fake_instance-Decides =
      Decides-gate (λ n. n == 0 || ltb 99 n) (λ s. s.fake_instance_cli)
        (Decides-modify (λ s. record s { fake_instance = two_digits s.fake_instance_cli }))

  io_type-Decides :
      Decides
        (check_io_type a_vm)
        (λ s. true && (not (unknown io_type_names a_vm.io_type) && true))
        (λ s.
          let i = chosen io_type_names a_vm.io_type s.io_type_cli in
          record s { io_type_cli = i; io = io_of (text_of io_type_names i) s.io })
  unfolding check_io_type
  io_type-Decides =
      named (unknown io_type_names a_vm.io_type)
        (λ s. record s { io_type_cli = chosen io_type_names a_vm.io_type s.io_type_cli })
        (λ s. record s { io = io_of (text_of io_type_names s.io_type_cli) s.io })

  threads-Decides :
      Decides
        (check_number_of_threads a_vm)
        (λ s. not (a_vm.number_of_threads_in_log_tests && (s.number_of_threads_in_log_tests == 0)))
        (λ s. s)
  unfolding check_number_of_threads
  threads-Decides =
      Decides-read (λ n. a_vm.number_of_threads_in_log_tests && (n == 0))
        (λ s. s.number_of_threads_in_log_tests)

  severities-Decides :
      Decides
        (check_severities a_vm)
        (λ s.
          true
          && (not (unknown log_min_severity_names a_vm.log_min_severity_syslog)
              && (true
                  && (true
                      && (not (unknown log_min_severity_names a_vm.log_min_severity_console)
                          && true)))))
        (λ s.
          let names = log_min_severity_names in
          let i = chosen names a_vm.log_min_severity_syslog s.log_min_severity_syslog_cli in
          let j = chosen names a_vm.log_min_severity_console s.log_min_severity_console_cli in
          record s {
            log_min_severity_syslog_cli = i;
            log_min_severity_syslog = as_severity (text_of names i);
            log_min_severity_console_cli = j;
            log_min_severity_console = as_severity (text_of names j);
          })
  unfolding check_severities
  severities-Decides =
      let names = log_min_severity_names in
      Decides-bind
        (Decides-modify (λ s. record s {
          log_min_severity_syslog_cli =
              chosen names a_vm.log_min_severity_syslog s.log_min_severity_syslog_cli;
        }))
        (Decides-bind (Decides-leave_if (unknown names a_vm.log_min_severity_syslog)) (
          Decides-bind
            (Decides-modify (λ s. record s {
              log_min_severity_syslog = as_severity (text_of names s.log_min_severity_syslog_cli);
            }))
            (named (unknown names a_vm.log_min_severity_console)
              (λ s. record s {
                log_min_severity_console_cli =
                    chosen names a_vm.log_min_severity_console s.log_min_severity_console_cli;
              })
              (λ s. record s {
                log_min_severity_console =
                    as_severity (text_of names s.log_min_severity_console_cli);
              }))))

  pub check_arguments-Decides : Decides (check_arguments a_vm) acceptable settled
  unfolding check_arguments
  check_arguments-Decides =
      Decides-same
        (λ s.
          tidy (not a_vm.help) (not (unknown fake_module_names a_vm.fake_module))
            (not (s.fake_instance_cli == 0 || ltb 99 s.fake_instance_cli))
            (not (unknown io_type_names a_vm.io_type))
            (not (a_vm.number_of_threads_in_log_tests && (s.number_of_threads_in_log_tests == 0)))
            (not (unknown log_min_severity_names a_vm.log_min_severity_syslog))
            (not (unknown log_min_severity_names a_vm.log_min_severity_console)))
        (Decides-bind (Decides-leave_if a_vm.help) (
          Decides-bind fake_module-Decides (
            Decides-bind fake_instance-Decides
              (Decides-bind io_type-Decides (Decides-bind threads-Decides severities-Decides)))))

-- A number below 100 is written as two digits, from which it is read back: the first is '0' for a
-- number below 10.
pub two_digits_read :
    (n : ℕ)
    → n < 100
    → (d e : ℕ) × (two_digits n ≡ (b'0' + d) ∷ (b'0' + e) ∷ [])
      × (d < 10)
      × (e < 10)
      × (10 * d + e ≡ n)
two_digits_read n h = (n / 10, n % 10, two_digits_lem n h, omega arith, omega arith, omega arith)
