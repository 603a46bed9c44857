-- ===== src/Tests/Calls.antt =====
-- The system calls of env 0.
use os_lab5_challenge.Base.{◌≡◌, refl, done, arith, erase}
use os_lab5_challenge.Kernel.{Kernel}
use os_lab5_challenge.Syscall.{
  Outcome, switched, sys_mem_alloc, sys_mem_map, sys_mem_unmap, sys_set_env_status, sys_ipc_recv,
  sys_ipc_try_send,
}
use os_lab5_challenge.Syscall.{is_illegal_va_range, is_device_range}
use os_lab5_challenge.Syscall.Spaces.{Ends}
use os_lab5_challenge.Syscall.Memory.{Allocates, sys_mem_alloc_lem}
use os_lab5_challenge.Syscall.Mapping.{Maps, Unmaps, sys_mem_map_lem, sys_mem_unmap_lem}
use os_lab5_challenge.Syscall.Waking.{SetsStatus, sys_set_env_status_lem}
use os_lab5_challenge.Syscall.Ipc.{Blocks, sys_ipc_recv_lem}
use os_lab5_challenge.Syscall.Send.{Sends, sys_ipc_try_send_lem}
use os_lab5_challenge.Tests.Machine.{mapped_lem, va_a, va_b}
use os_lab5_challenge.Tests.World.{
  world, order, world-IsQueued, world-HasSpaces, world-HasReceivers, world_room,
}

mem_alloc_example :
    Ends (sys_mem_alloc 0 va_b 1024) world (Allocates mapped_lem.0 world 0 0 va_b 1024)
mem_alloc_example =
    sys_mem_alloc_lem mapped_lem.0 world world-HasSpaces 0 refl 0 va_b 1024 (omega arith)

mem_map_example :
    Ends (sys_mem_map 0 va_a 6146 va_b 1024) world (Maps mapped_lem.0 world 0 0 va_a 6146 va_b 1024)
mem_map_example =
    sys_mem_map_lem mapped_lem.0 world world-HasSpaces 0 refl world_room 0 va_a 6146 va_b 1024
      (omega arith)

mem_unmap_example : Ends (sys_mem_unmap 0 va_a) world (Unmaps mapped_lem.0 world 0 0 va_a)
mem_unmap_example = sys_mem_unmap_lem mapped_lem.0 world world-HasSpaces 0 refl 0 va_a

set_env_status_example :
    (o : Outcome) × (k' : Kernel) × (sys_set_env_status 6146 1 world ≡ done o k')
    × SetsStatus world order 0 6146 1 o k'
set_env_status_example = sys_set_env_status_lem world order world-IsQueued 0 refl refl 6146 1

ipc_recv_example :
    (k' : Kernel) × (sys_ipc_recv va_b world ≡ done switched k') × Blocks world order 0 va_b k'
unfolding erase os_lab5_challenge.Syscall.is_illegal_va
ipc_recv_example = sys_ipc_recv_lem world order 0 va_b world-IsQueued refl refl (omega arith) refl

ipc_try_send_example :
    Ends
      (sys_ipc_try_send 6146 42 va_a 1024)
      world
      (Sends mapped_lem.0 world order 0 6146 42 va_a 1024)
ipc_try_send_example =
    sys_ipc_try_send_lem mapped_lem.0 world order world-HasSpaces world-IsQueued world-HasReceivers
      world_room 0 refl 6146 42 va_a 1024 (omega arith)
