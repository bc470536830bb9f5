-- ===== src/Persistent/Example.antt =====
-- A function that clears all registers, with a runtime and a hook that do so too.
use pe_ar_honours.Prelude.{◌+◌}
use pe_ar_honours.Persistent.{Machine, World}

abbrev pub world : World
world = record {
  setup_address = 5000;
  reg_backup = 6000;
  fuzz_ptr = 7000;
  fuzz_len = 8000;
  word = λ a. 3;
  called = λ name m r. 0;
  called_cell = λ name m. m.cell;
  hooked = λ name m. m.registers.backup;
  function_body = λ m. record m { registers = record m.registers { read = λ r. 0 } };
}

abbrev pub machine : Machine
machine = record {
  rsp = 4096;
  registers = record { read = λ r. 9; backup = λ n. 0 };
  cell = λ a. a + 1;
  return_address = 0;
  first_pass = 1;
  cycle_cnt = 0;
}
