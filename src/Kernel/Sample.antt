-- ===== src/Kernel/Sample.antt =====
-- A layout, two states of the kernel of kernel.cpp and two machines, for the tests.
use blue_os.Base.{ℕ, refl, true, false, none, some, List, [], arith}
use blue_os.Ports.{Device}
use blue_os.Interrupts.{Kernel}
use blue_os.Ata.{is_busy}
use blue_os.Kernel.{Layout, Devices, System}
use blue_os.Kernel.Probes.{IsQuiet}
use blue_os.Kernel.Sound.{IsSound, handler_of}

abbrev pub at : Layout
at = record {
  stubs = record {
    ignore = 0x100100;
    request_0x00 = 0x100200;
    request_0x01 = 0x100300;
    request_0x0c = 0x100400;
  };
  fast_task = 0x101000;
  medium_task = 0x101100;
  slow_task = 0x101200;
  gdt = 0x110000;
  table = 0x111000;
  interrupts = 0x200000;
  keyboard = 0x200800;
  mouse = 0x200900;
  t1 = 0x201000;
  t2 = 0x203000;
  t3 = 0x205000;
}

abbrev pub system : System (List ℕ)
system = record {
  kernel = record {
    interrupts = record {
      active = 0;
      handler = λ m n. 5;
      table = λ _. record {
        handler_address_lower_bits = 0;
        gdt_code_segment_selector = 0;
        reserved = 0;
        access = 0;
        handler_address_high_bits = 0;
      };
      loaded = none;
      enabled = false;
    };
    io = record { trace = []; screen = record { cells = λ _. 0x0720; x = 0; y = 0 } };
    tasks = record {
      tasks = λ i. 0;
      num_tasks = 9;
      current_task = some 3;
      task = λ p. record { cpustate = 0; burst_time = 0; remaining_time = 0; priority = 0 };
    };
    devices = record {
      keyboard = record { handler = 7 };
      mouse = record { buffer = λ _. 0; offset = 200; button = 0; x = 100; y = 99; under = 0 };
      events = [];
    };
  };
  gdt = record {
    gdt = λ _. record {
      limit_low = 0;
      base_low = 0;
      base_middle = 0;
      access = 0;
      granularity = 0;
      base_high = 0;
    };
    gdt_ptr = record { limit = 0; base = 0 };
    loaded = none;
  };
  frames = λ _. record {
    eax = 1;
    ebx = 1;
    ecx = 1;
    edx = 1;
    esi = 1;
    edi = 1;
    ebp = 1;
    error = 1;
    eip = 1;
    cs = 1;
    eflags = 1;
    esp = 1;
    ss = 1;
  };
  drivers = record { drivers = λ _. 0; num_of_driver = 77 };
}

-- ports that always answer 0x50, a disk that is ready, and ports that nothing drives
abbrev pub ready : Device
ready trace port = 0x50

abbrev pub floating : Device
floating trace port = 0xFF

pub ready-IsQuiet : IsQuiet ready
unfolding is_busy
ready-IsQuiet = record { keyboard = λ t. refl; primary = λ t. refl; secondary = λ t. refl }

-- the kernel with its two drivers, which takes interrupts
abbrev pub kernel : Kernel (Devices (List ℕ))
kernel = record {
  interrupts = record {
    active = 0x200000;
    handler = λ m n. handler_of at n;
    table = λ _. record {
      handler_address_lower_bits = 0;
      gdt_code_segment_selector = 0;
      reserved = 0;
      access = 0;
      handler_address_high_bits = 0;
    };
    loaded = none;
    enabled = true;
  };
  io = record { trace = []; screen = record { cells = λ _. 0x0720; x = 0; y = 0 } };
  tasks = record {
    tasks = λ i. 0;
    num_tasks = 0;
    current_task = none;
    task = λ p. record { cpustate = 0; burst_time = 0; remaining_time = 0; priority = 0 };
  };
  devices = record {
    keyboard = record { handler = 7 };
    mouse = record { buffer = λ _. 0; offset = 2; button = 0; x = 40; y = 12; under = 0 };
    events = [];
  };
}

pub kernel-IsSound : IsSound at kernel
kernel-IsSound = record {
  made = record {
    tasks = refl;
    screen = record { column = omega arith; row = omega arith };
    mouse = record { column = omega arith; row = omega arith; part = omega arith };
    handlers = λ n l. refl;
  };
  active = refl;
  enabled = refl;
}
