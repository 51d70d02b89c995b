-- ===== src/Lib.antt =====
-- Verification of mvmm, a hypervisor for AArch64: models of its core in antt and the theorems about them.
--
-- The program gives each guest a physical address space of its own through stage-2 page tables
-- (src/mm.c), whose tables and pages come from the page allocator (src/kalloc.c). It emulates a GICv3
-- for the guest (src/vgic.c): the distributor and redistributor registers, and the list registers
-- through which the processor presents interrupts to the guest (src/gic.c).
--
-- Files and the code they model:
-- - Base: what the files share: tests on numbers, lists, bits of words, and `Outcome`, the ways in
--   which code ends: a value, `panic` (a call of panic), `fault` (an access through a null pointer or
--   past an array) and `spin` (a wait that never ends).
-- - Memory: physical memory as a function from addresses to bytes, with little-endian 8-byte accesses.
-- - CLib: src/lib.c. `memmove`, `memcpy`, `memset`, over that memory, and CLib.Strings, the string functions,
--   on fuel; more rounds than a string has characters are enough.
-- - Printf: src/printf.c. `printf` as a function from a format and a list of arguments to the characters
--   given to `uart_putc`; Printf.Digits and Printf.Number are about the text of a number, Printf.Convert about
--   one conversion, Printf.Format about whole formats. A width that does not fit an `int` is a fault.
-- - Spinlock: src/spinlock.c and include/spinlock.h with SPINLOCK_DEBUG, the calls of one processor;
--   Spinlock.Race runs them on several processors, an access of the lock at a time, in any order, and with
--   calls that break the order of `acquire` and `release`; Spinlock.Race.Holder is about who has the lock.
-- - Uart: src/uart.c. The serial port over a device that is a parameter; Uart.Fifo is about the characters that
--   are sent and received.
-- - Virtq: src/virtio-pci.c. The queue of a virtio device, its free descriptors (Virtq.FreeList) and its start
--   (Virtq.Init). Virtq.Random is a request for a random number, with the wait for the device's answer.
-- - Pci: src/pci.c and include/pci.h. The scan of the bus; a configuration space is a parameter, a record of its
--   registers. Pci.Place says how the registers of a function answer and what their addresses are to be,
--   Pci.Enable is about `pci_func_enable`, Pci.Windows about the addresses being apart.
-- - VirtioPci: the rest of src/virtio-pci.c. The capabilities of a device, on fuel (VirtioPci.Chain), and the
--   writes that start it (VirtioPci.Start).
-- - Kalloc: src/kalloc.c. The links of the free list are 8 bytes in the free pages themselves. Kalloc.Pool
--   states what a pool of pages is and what `kalloc` and `kfree` do to it, Kalloc.Boot is `kalloc_init`.
-- - Mm: src/mm.c and include/mm.h. Tables are pages of the same memory; a null pointer is the address
--   0. Mm.Tables describes the tree of tables by a label for each table page, Mm.Walk and Mm.Grow are
--   about `pagewalk`, Mm.Map about one round of `pagemap` and `pageunmap` and about `ipa2pa`, Mm.Range
--   about the whole of `pagemap`, Mm.Copy about the copies from and to a guest. Mm.Regime
--   holds the registers that say how the processor walks the tables. Entry, Attach, Leaf and Frame hold the lemmas on descriptors and writes.
-- - Gic: src/gic.c and include/gic.h. The list registers are a function from their number; a device
--   register is read by a parameter, `Device`, from the writes so far. Gic.ListReg is about the word of a
--   list register and the saved state, Gic.Distributor about the enable bits, Gic.Start is the start of the
--   controller.
-- - Vgic: src/vgic.c and include/vgic.h. Vgic.Lr is the use of the list registers, with its laws and its
--   invariant in the child modules; Vgic.Decode, Vgic.Gicd and Vgic.Gicr are the emulated registers,
--   Vgic.Cells and Vgic.Banks the lemmas on their loops, Vgic.Enable the enable registers,
--   Vgic.Priority the priorities, Vgic.Collect, Vgic.Bytes, Vgic.Access and Vgic.Redist what whole registers read and write,
--   Vgic.Cpu the structs of the virtual processors' own interrupts.
-- - Vcpu: src/vcpu.c and include/vcpu.h. The table of virtual processors and their states (Vcpu.Table), the
--   saved EL1 registers (Vcpu.Saved). The pointer `vcpu->vm` is followed back from the `vcpus` of the virtual
--   machine (Boot.vm_vttbr).
-- - Mmio: src/mmio.c and include/mmio.h. The table of emulated regions; Mmio.Dispatch is about
--   `mmio_emulate`, Mmio.Register about `mmio_reg_handler`. The walk over the list runs on fuel; as many
--   rounds as there are regions are enough.
-- - Vm: src/vm.c. The address space that `create_vm` builds: Vm.Ram and Vm.Image are the loops over the pages
--   of memory and of the image, on the lemmas of Vm.Grown, Vm.Ranges and Vm.Layout the whole of it; and
--   `pagetrap`.
-- - VirtioMmio: src/virtio-mmio-dev.c. The queue that a guest shares with a device, over the hypervisor's memory
--   and the guest's tables; VirtioMmio.Translate is about the addresses that the device is given,
--   Bounce and Finish about buffers that cross a page, which the device gets as a copy.
-- - CreateVm: `create_vm` of src/vm.c and `new_vgic` of src/vgic.c as a whole, with the tables that their structs
--   come from; CreateVm.Processors is about the virtual processors.
-- - Sysreg: src/vsysreg.c. The system registers whose access a guest traps; Sysreg.Fields decodes the
--   syndrome of an access.
-- - Trap: src/trap.c. `vm_sync_handler` over a machine with its virtual processors and devices; Trap.Abort is
--   about data aborts, up to the handler of a region, Trap.Register about system registers, Trap.Interrupt
--   about interrupts that arrive while a guest runs, Trap.Host about those that arrive in the hypervisor.
-- - Boot: src/init.c and src/pcpu.c. What processor 0 does up to `create_vm` and another processor up to its
--   guest (Boot.Start); the images of src/guest.c are arguments.
-- - Hello: guest/hello, the guest program of the repository: Hello.Gic, Uart, Timer and Main are its files.
--   Hello.Emulated gives its driver of the interrupt controller the registers of Vgic, Hello.Bank and
--   Hello.Steps are the accesses on them, Hello.Setup and Hello.Ppi the set-up of an interrupt through both,
--   Hello.Bringup the start of the whole controller; Hello.Print is
--   about what it sends through the serial port.
-- - Psci: src/vpsci.c and include/psci.h. The power calls of a guest; the firmware's answer is a parameter.
-- - Tests: the theorems applied to concrete states.
--
-- Correspondence: a function of the source is a definition of the same name. An argument `me` is the
-- number of the processor that runs the code, `cpuid()`. `gic_lr_max` is an argument, `lr_max`. Words
-- are natural numbers with the wrap-around of the source written out where a value can reach it.
-- Messages are left out.
--
-- Fuel: the loop of `kalloc_init` runs on fuel, and its theorem asks for more fuel than there are pages.
-- The loops of the guest copies move at least one byte a round, so `len` rounds are enough. `pagewalk`
-- has three levels and the loops over a range `size / PAGESIZE` rounds, counted by recursion. The loop of
-- `free_desc` runs on fuel; as many rounds as the chain has descriptors are enough. The loops of
-- `virtio_dev_intr` run on fuel, and end in `spin` without it: a device may give a ring of descriptors.
--
-- Behaviour of hardware is a hypothesis: `Gic.Distributor.IsDistributor` says how the enable registers
-- of a GICv3 distributor read back, `Vgic.Lr.Ownership.Step.progress` that a guest never makes an
-- inactive list register live by itself. In Spinlock.Race an exclusive store succeeds only while the
-- monitor of the processor is set, and a store to the lock clears the monitors of all. A flush of the
-- translations drops those of the guest that `vttbr_el2` names. The random number device is a parameter, which
-- says what the code reads at each round of its wait; `Virtq.Random.Answers` is that it answers at last.
--
-- The registers of a PCI function (`Pci.Place.IsFunction`, `IsWindow`) keep of a write what `held` says and read
-- as ones above a window's size after all ones are written; a serial port (`Uart.Fifo.IsPort`) hands out
-- what it received in order and takes a character when its flag says so; a redistributor reports after some
-- reads that it is awake.
--
-- Fuel: the scan of capabilities takes a round for each, the serial port one for each character, and a wait as
-- many as the device needs.
--
-- Not modelled: assembly, the declarations and accessors of the remaining headers, and what messages and dumps
-- print.
pub mod Base
pub mod Memory
pub mod CLib
pub mod Spinlock
pub mod Kalloc
pub mod Mm
pub mod Gic
pub mod Vgic
pub mod Vcpu
pub mod Psci
pub mod Mmio
pub mod Printf
pub mod Uart
pub mod Virtq
pub mod Pci
pub mod VirtioPci
pub mod Vm
pub mod VirtioMmio
pub mod CreateVm
pub mod Sysreg
pub mod Trap
pub mod Boot
pub mod Hello
pub mod Tests
