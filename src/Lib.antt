-- ===== src/Lib.antt =====
-- tinymachine runs untrusted code in sandboxes: in-process Wasm, VMs forked copy-on-write from a
-- booted template, and VMs booted afresh. This library models the parts of it that keep state of
-- their own.
--
-- The parts, and the files that model them:
--
-- Pool (tinymachine-fork/src/pool.rs, with fork_batch of fork.rs and the configuration of
-- variant.rs): the warm pools. `Pool.Fork` is `ForkPool`, `Pool.Manager` the manager that keeps one
-- such pool for each variant or composition, `Pool.FreshBoot` the pool of VMs booted afresh,
-- `Pool.Config` the configuration. Forking a VM (`ForkEngine::fork`) and a backend's init, reset
-- and destroy are system calls: they are parameters, from the state of the host to a result and the
-- next state of the host, and may fail at any call. Methods on `&mut self` return the new pool
-- beside their result. What a VM holds, and what its drop frees, is not modelled.
--
-- RootPort (tinymachine-fork/src/pci_root_port.rs): the emulated PCIe root port. Its config space
-- is a list of bytes; offsets and sizes are natural numbers, so every access of the guest is
-- covered.
--
-- Serial (tinymachine-fork/src/serial.rs): the 16550 UART between guest and host.
--
-- Cache (tinymachine-fork/src/cache.rs): the table of results by hash. The hash function is a
-- parameter, and the clock an argument of each call. The lock makes each call one step.
--
-- Ir (tinymachine-ir/src/types.rs and walk.rs): the program representation and the default walk of
-- `IrVisitor`, for any visitor: a state and what each `visit_*` method does to it.
--
-- Cmdline (tinymachine-config/src/cmdline.rs): configuration from the kernel's command line.
-- `Cmdline.Lexer` splits it into tokens, `Cmdline.Config` sets and merges the parameters, and
-- `Cmdline.Print` writes them. The methods of `str` and the parsing of integers are written out
-- from the documentation of Rust's standard library.
--
-- Composer (tinymachine-fork/src/composer.rs): the check of a composition's layers for files that
-- two of them hold. Listing an archive runs other programs and is a parameter, which may fail for
-- any layer. `Composer.Eviction` is the eviction from the cache of compositions, over the entries
-- that it finds on disk; which directories can be removed is a parameter.
--
-- Layers (tinymachine-fork/src/layer_registry.rs): the registry of layers. `Layers.Parsing` is what
-- a program asks for, `Layers.Resolve` the way from there to the layers of its VM, and
-- `Layers.Storage` the text of the registry's file. The hash function is a parameter. The index is
-- a list of its keys with their entries, in the order in which an iteration visits them. The scan
-- of the directory of layers is file input.
--
-- Uops (tinymachine-fork/src/uops.rs): the micro-operations that a piece of code may make.
-- `Uops.Policy` is the policy engine, with the subnets of `Uops.Net` and their parsing in
-- `Uops.Allow`; `Uops.Analyzer` is the visitor that finds the operations, on the walk of `Ir`, and
-- the check of what it found. The parser is a third party's and a parameter. The tests of
-- addresses, paths and texts are written out from the documentation of Rust's standard library.
--
-- Seccomp (tinymachine-fork/src/seccomp.rs): the builder of syscall filters. A filter is the list
-- of its instructions; `Seccomp.Machine` says what they do. The verdicts come from the libc crate
-- and are parameters.
--
-- Lazy (tinymachine-fork/src/lazy.rs): the queue of snippets, run in batches on VMs of the pool
-- manager. Running code in a VM and estimating its memory are parameters. The threads of a chunk
-- share nothing, so they run one after the other here.
--
-- Boot (tinymachine-fork/src/arch/x86_64/boot.rs, with layout.rs and cpu.rs beside it): the guest's
-- memory, the loading of segments into it, and its page tables. Memory gives the byte at each
-- address. `Boot.Tables.Walk` is the processor's reading of the tables. Sums of 64-bit numbers
-- wrap.
--
-- Templates (tinymachine-fork/src/template_registry.rs): the dates of templates.
-- `Templates.Calendar` is the calendar that they are held against. The loop over the years has fuel
-- of the number of days, and takes a year at each turn.
--
-- Uart (tinymachine-fork/src/arch/x86_64/port.rs): the UART behind the guest's serial ports,
-- register by register.
--
-- Vfio (tinymachine-fork/src/vfio/base.rs, with pci_config.rs and device.rs beside it): the
-- placement of the memory regions of a passed-through device. Reading and writing the device's file
-- are parameters that may fail at any call. The search for a power of two has fuel for those that a
-- 64-bit number can hold.
--
-- Virtio (tinymachine-fork/src/net/virtio_net_pci.rs): the network device. `Virtio.Registers` is
-- what the guest reads and writes of it, `Virtio.Rings` the two queues in the guest's memory,
-- `Virtio.Transmit` a kick of the one that sends, `Virtio.Receive` the filling of the other, and
-- `Virtio.Reply` what the device answers where it has no TAP interface. `Virtio.Polling` is the run
-- loop's part, in tinymachine-fork/src/arch/x86_64/boot.rs. The TAP interface is the list of frames
-- that can be read from it and the list of those written to it. A panic is an error of the result,
-- and so is a chain of descriptors longer than the fuel; the code has no such bound.
--
-- How the parts meet: the manager drives the pools, the pools drive the fork engine; the root port,
-- the serial port and the network device are devices of a VM, which the engine owns; cache and
-- representation serve the front end. The lazy queue owns the pool manager that it runs on; the analyzer is a visitor of
-- the representation, and hands what it found to the policy. The registry of layers makes the plan
-- whose layers the composer checks; the network device works on the memory that the boot code
-- writes.
--
-- Numbers are natural numbers. Where the source saturates or wraps, the definition says so: pool
-- sizes use subtraction that stops at 0, as `saturating_sub` does, and bytes are reduced modulo
-- 256. Loops over a known count recurse on it, and others on the list they consume. Six have fuel:
-- the guest's walk along the capabilities, whose theorem says how many steps are enough; the chunks
-- of a lazy queue, with the number of items, since a chunk holds one at least; the years of a date,
-- with the number of days; the search for a power of two; the folding of a checksum, in two
-- rounds, which leave no carry; and the loops over a chain of descriptors, whose
-- theorems ask for as much fuel as the chain has descriptors.
--
-- Not modelled: the engines and backends themselves (KVM, QEMU, Wasm and the rest of VFIO), the
-- rest of the boot code, the registry of kernels, the files of layers and templates, the rest of
-- the composer, the configuration file, the Python front end, logging, tests, benchmarks and image
-- tools.
pub mod Common
pub mod Pool
pub mod RootPort
pub mod Serial
pub mod Uart
pub mod Vfio
pub mod Virtio
pub mod Cache
pub mod Ir
pub mod Cmdline
pub mod Composer
pub mod Layers
pub mod Seccomp
pub mod Uops
pub mod Lazy
pub mod Boot
pub mod Templates
