-- ===== src/Tests/Devices.antt =====
-- The guest whose address 0x123 is mapped writes it into descriptor 2 of its queue, which is at 0x20000.
use mvmm.Base.{
  ℕ, ◌+◌, ◌*◌, ◌<◌, ◌≤◌, ◌≡◌, ◌≢◌, ◌⊎◌, zero, suc, false, true, [], ◌∷◌, ok, arith, refl, sym, ◌∙◌,
}
use mvmm.Memory.{load64}
use mvmm.Spinlock.{spinlock_init}
use mvmm.Mm.Copy.Space.{ClearOf}
use mvmm.Tests.Data.{pool_pages}
use mvmm.Tests.Tables.{path_label, path_mem, path_state, path_state-IsSpace}
use mvmm.Tests.Copies.{first_frame, second_frame, crossing-IsReachable, crossing-OwnFrames}
use mvmm.VirtioMmio.{VtDesc, Vtdev, virtq_read, virtq_write, write_len, finish_chain}
use mvmm.VirtioMmio.Bounce.{Bounced, write_len-Bounced}
use mvmm.VirtioMmio.Finish.{Returned, finish_chain-Returned}
use mvmm.VirtioMmio.Translate.{translated, virtq_write-translated}

abbrev pub empty_desc : VtDesc
empty_desc = record {
  ipa = 0;
  real_addr = 0;
  len = 0;
  next = 0;
  across_page = false;
  has_next = false;
}

abbrev pub idle_device : Vtdev
idle_device = record {
  qnum = 8;
  last_used_idx = 0;
  ring = λ n. empty_desc;
  lock = spinlock_init;
  pmem = path_state;
  writes = [];
}

virtq_write-translated_example :
    (d' : Vtdev) × (virtq_write 0 0x1000 0x20000 (16 * 2) 0x123 8 idle_device ≡ ok d')
    × (load64 d'.pmem.mem (0x20000 + 16 * 2) ≡ translated 0x1000 0x123 path_state)
    × (virtq_read 0 0x1000 0x20000 (16 * 2) 8 d' ≡ ok (translated 0x1000 0x123 path_state))
    × ((d'.ring 2).ipa ≡ 0x123)
    × ((d'.ring 2).real_addr ≡ translated 0x1000 0x123 path_state)
    × ((k : ℕ) → k ≢ 2 → d'.ring k ≡ empty_desc)
    × ((b : ℕ)
        → (b < 0x20000 + 16 * 2) ⊎ (0x20000 + 16 * 2 + 8 ≤ b)
        → d'.pmem.mem b ≡ path_state.mem b)
    × (d'.lock ≡ spinlock_init)
virtq_write-translated_example =
    virtq_write-translated 0 0x1000 0x20000 2 0x123 path_label idle_device refl
      (path_state-IsSpace.tables) (omega arith) (omega arith) (omega arith)

pages_apart : (q : ℕ) → q ≢ 0x8000 → q ≢ 0xb000 → ClearOf 0x1000 0xfff 2 path_mem q
pages_apart q a b zero lt e = a (sym e ∙ first_frame)
pages_apart q a b (suc zero) lt e = b (sym e ∙ second_frame)
pages_apart q a b (suc (suc k)) lt e = absurd (omega arith)

-- Descriptor 2 stands for the two bytes at 0xfff, whose first byte is at 0x8fff.
abbrev crossing_device : Vtdev
crossing_device = record idle_device {
  ring = λ n. record empty_desc { ipa = 0xfff; real_addr = 0x8fff };
}

write_len-Bounced_example :
    (d' : Vtdev) × (write_len 0 0x1000 0x20000 2 2 crossing_device ≡ ok d')
    × Bounced path_label 0x1000 0x20000 2 2 0x2000 (0x3000 ∷ 0x4000 ∷ []) crossing_device d'
write_len-Bounced_example =
    write_len-Bounced path_label 0 0x1000 0x20000 2 2 0x2000 (0x3000 ∷ 0x4000 ∷ []) crossing_device
      (record {
        unlocked = refl;
        space = path_state-IsSpace;
        in_ring = omega arith;
        short = omega arith;
        crosses = refl;
        reach = crossing-IsReachable;
        clear = pages_apart 0x2000 (omega arith) (omega arith);
        queue = refl;
        queue_data = record {
          aligned = refl;
          not_table = refl;
          not_free = (omega arith, (omega arith, (omega arith, tt)));
        };
      })

-- The device has worked on a copy of those bytes in the page at 0x9000.
abbrev working_device : Vtdev
working_device = record idle_device {
  ring = λ n. record empty_desc { ipa = 0xfff; real_addr = 0x9000; len = 2; across_page = true };
}

finish_chain-Returned_example :
    (d' : Vtdev) × (finish_chain 0 0x1000 0x20000 1 2 working_device ≡ ok d')
    × Returned path_label 0x1000 2 0x9000 pool_pages working_device d'
finish_chain-Returned_example =
    finish_chain-Returned path_label 0 0x1000 0x20000 0 2 0x9000 pool_pages working_device (record {
      in_ring = omega arith;
      across = refl;
      last = refl;
      at_real = refl;
      short = omega arith;
      space = path_state-IsSpace;
      page = record { aligned = refl; ne_null = omega arith; fits = omega arith };
      real_data = record {
        aligned = refl;
        not_table = refl;
        not_free = (omega arith, (omega arith, (omega arith, tt)));
      };
      reach = crossing-IsReachable;
      own = crossing-OwnFrames;
      clear = pages_apart 0x9000 (omega arith) (omega arith);
      not_free = (
        pages_apart 0x2000 (omega arith) (omega arith),
        (
          pages_apart 0x3000 (omega arith) (omega arith),
          (pages_apart 0x4000 (omega arith) (omega arith), tt),
        ),
      );
    })
