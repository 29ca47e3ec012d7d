-- ===== src/Lib.antt =====
-- A model of cropstun, a library that opens a TUN device, routes the traffic of the system into it and
-- hands the connections of a user-space network stack to a handler.
--
-- The program's parts and their files:
-- - Base, Net: shared notation and lemmas; errors, panics and integers of Go; net/netip as the source
--   uses it. Strings are lists of bytes, an address is a number of 32 or 128 bits.
-- - Buf.Alloc: common/buf/alloc.go and pool.go, the allocator of byte slices by size class: `Get`
--   (get), `Put` (put), `msb`. Buf.Buffer: the operations of common/buf/buffer.go on the positions and
--   bytes of a `Buffer`. Buf.Owner: where a buffer's slice comes from and goes to (`New`, `NewSize`,
--   `Release`, `ToOwned`, common/buf/multi.go, `Must` of common/cond.go); it uses both.
--   Buf.Queue is the abstract queue of bytes that a buffer implements. Buf.Source: the methods
--   that read from an io.Reader, which is a parameter.
-- - Tun.Options: `NewTunDevice` of tun.go up to `New`. Tun.Names: `CalculateInterfaceName`.
--   Tun.Ranges: tun_rules.go, the ranges that are routed into the device.
-- - Tun.Linux.Rules: `routes` and `rules` of tun_linux.go. Tun.Linux.System: the kernel.
--   Tun.Linux.Netlink: the methods that add and delete routes and rules. Tun.Linux.Device: `open`,
--   `configure`, `New`, `Close`. The device uses Tun.Options and Tun.Ranges; Kept and
--   Descriptors below it reason about open descriptors. Tun.Linux.Dns: `SetupDNS`.
--   Tun.Linux.Flags: tun_linux_flags.go.
-- - Tun.Windows.Firewall: the filters that tun_windows.go adds. Tun.Windows.Configure: `configure`,
--   `New`, `Close`. Tun.Windows.Session: `ReadPacket`, `ReadFunc`, `Write`, `write`, `update`.
--   Writer: `WriteVectorised`. Dns: `SetupDNS`. Endpoint and Dispatch: tun_windows_gvisor.go, over the
--   session; Dispatch.Reads and Dispatch.Delivered reason about the loop.
-- - Tun.Darwin: Name, Requests and Configure model `New`, `configure`, `useSocket`, `addRoute` and
--   `Close` of tun_darwin.go over System, the kernel; Routable, Kept, Descriptors,
--   Requested and Posted reason about them.
--   Writer is `WriteVectorised`. Endpoint is tun_darwin_gvisor.go: `Attach`, `dispatchLoop`,
--   `WritePackets`; Dispatch reasons about the loop.
-- - Tun.Stack: stack_gvisor.go. Connection has the closers that run once and the forwarders, Gvisor
--   `Start`, `Close`, the settings of the stack and the conversion of addresses, Library what they
--   call. A handler is a script of what it does to its connection.
-- - Bufio.Vectorised: common/bufio/vectorised.go and `CopyMulti`. Bufio.Syscall: vectorised_unix.go and
--   vectorised_windows.go. Bufio.Sockaddr: addr_linux.go, addr_unix.go, addr_windows.go. The writers
--   use Buf.Owner and release the buffers they are given.
-- - Route.Linux, Route.Darwin, Route.Windows, Route.Others: route/, one function each.
-- - Iface: iface/iface.go. Bind.Control: bind/bind.go; Bind.Linux, Bind.Darwin, Bind.Windows: the
--   control functions of the systems. Bind looks interfaces up in Iface.
-- - Process.Common, Process.Windows, Process.Linux, Process.Darwin: the process that owns a socket, by
--   process/process_windows.go, process_linux.go and process_darwin.go. Process.Darwin.Sockets and
--   Process.Windows.Search say where the fields of an entry stand.
--
-- A function has its Go name in snake case; `open` is open_tun, `New` new_tun, `Close` close_tun. A
-- method takes the receiver's record and returns the changed one beside its results. An error is a
-- value (Result, Option Error), a panic is `panics` of Outcome. Integers that the source keeps in w
-- bits and that may wrap have `% 2 ^ w`. The positions of a buffer and the arguments of its methods are
-- natural numbers; what `NewSize` yields for a negative size has a constructor of its own (Sized).
--
-- What lies outside of the source is a parameter: sync.Pool is a list that may lose entries between
-- calls; the kernel of Linux (netlink, ioctls, /proc), the libraries of Windows and the kernel of macOS
-- are records of calls on a state K, as are gvisor, sockets and the handler; of these nothing is
-- assumed but what a theorem names.
--
-- Fuel: `findProcessName` on macOS runs on the length of the list, more than it has items. The loops
-- on calls of others (`ReadFrom`, `ReadFullFrom`, fetching a table, waiting for a packet, a system call
-- that is tried again, the loops of deliveries, the search for an unused table) have no bound in the
-- source; they take fuel as an argument, and a hypothesis says how much is enough. The last of them runs
-- only for a device with the table index 0, and yields the last index tried when the fuel is used up.
--
-- Not modelled: internal/ (winipcfg, wintun, memmod, winsys, winfw, windnsapi), copies of other
-- projects and bindings of system calls; example/; tun_linux_gvisor.go, one call of a library; `SetupDNS`
-- of macOS, which runs a shell script. Goroutines are not modelled: a call runs to its end.
pub mod Base
pub mod Bind
pub mod Buf
pub mod Bufio
pub mod Iface
pub mod Net
pub mod Process
pub mod Route
pub mod Tun
