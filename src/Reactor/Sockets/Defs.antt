-- ===== src/Reactor/Sockets/Defs.antt =====
-- eventloop/eventloop.go: the sockets and `ConnCnt` of a loop; poller/epoll.go: the calls of
-- `epoll_ctl`. The kernel's interest list and `epoll_ctl` are parameters.
use Prim.Native.Nat.{bit_or}
use goreactor.Common.{ℕ, ◌+◌, ◌-◌, ◌%◌, ◌^◌, Bool, true, false, List, [], Option, none, some}
use goreactor.Common.{if◌then◌else◌}
use goreactor.Reactor.Sockets.Tables.{find, put, delete}

-- The operations of epoll_ctl(2).
pub data Control : Type 0 where
  ctl_add ctl_del ctl_mod : Control

-- EPOLLIN | EPOLLPRI
abbrev pub read_event : ℕ
read_event = bit_or 0x1 0x2

-- EPOLLOUT
abbrev pub write_event : ℕ
write_event = 0x4

-- `sockets` and `ConnCnt` (an int64, modulo 2 ^ 64) of the loop, and the kernel's state of its poller.
pub record Loop (S K : Type 0) : Type 0 where
  pub sockets : List (ℕ × S)
  pub conn_cnt : ℕ
  pub kernel : K

module _ {S K : Type 0} where
  -- `ConnectionCount`
  unfoldable pub connection_count : Loop S K → ℕ
  connection_count el = el.conn_cnt

  -- The socket whose `HandleEvent` `handlerEvent` calls for an event of `fd`.
  unfoldable pub event_socket : ℕ → Loop S K → Option S
  event_socket fd el = find fd el.sockets

  -- `New` of the loop, whose poller has no file descriptor but its own.
  unfoldable pub new_sockets : K → Loop S K
  new_sockets k = record { sockets = []; conn_cnt = 0; kernel = k }

  -- What `DeleteFdInLoop` does with the result of `Remove`.
  unfoldable pub after_remove : ℕ → Loop S K → Option K → Option (Loop S K)
  after_remove fd el none = none
  after_remove fd el (some k) = some (record {
    sockets = delete fd el.sockets;
    conn_cnt = (el.conn_cnt + (2 ^ 64 - 1)) % 2 ^ 64;
    kernel = k;
  })

  unfoldable pub after_modify : Loop S K → Option K → Option (Loop S K)
  after_modify el none = none
  after_modify el (some k) = some (record el { kernel = k })

  -- What `AddSocketAndEnableRead` does with the result of `AddRead`.
  unfoldable pub after_add : ℕ → List (ℕ × S) → Loop S K → Option K → Loop S K × Bool
  after_add fd sockets el none = (record el { sockets = delete fd sockets }, false)
  after_add fd sockets el (some k) =
      (record { sockets = sockets; conn_cnt = (el.conn_cnt + 1) % 2 ^ 64; kernel = k }, true)

module _ {K : Type 0} (epoll_ctl : Control → ℕ → ℕ → K → Option K) where
  -- `Poller.add`, `Remove` and `modify`, and what they are called with; `none` is an error.
  unfoldable pub add : ℕ → ℕ → K → Option K
  add fd events k = epoll_ctl ctl_add fd events k

  unfoldable pub add_read : ℕ → K → Option K
  add_read fd k = add fd read_event k

  unfoldable pub add_write : ℕ → K → Option K
  add_write fd k = add fd write_event k

  unfoldable pub remove : ℕ → K → Option K
  remove fd k = epoll_ctl ctl_del fd 0 k

  unfoldable pub modify : ℕ → ℕ → K → Option K
  modify fd events k = epoll_ctl ctl_mod fd events k

  unfoldable pub enable_read_write : ℕ → K → Option K
  enable_read_write fd k = modify fd (bit_or read_event write_event) k

  unfoldable pub enable_read : ℕ → K → Option K
  enable_read fd k = modify fd read_event k

  unfoldable pub enable_write : ℕ → K → Option K
  enable_write fd k = modify fd write_event k

  module _ {S : Type 0} where
    -- `DeleteFdInLoop`; `none` is log.Fatal.
    unfoldable pub delete_fd_in_loop : ℕ → Loop S K → Option (Loop S K)
    delete_fd_in_loop fd el = after_remove fd el (remove fd el.kernel)

    -- `AddSocketAndEnableRead`; `false` is an error.
    unfoldable pub add_socket_and_enable_read : ℕ → S → Loop S K → Loop S K × Bool
    add_socket_and_enable_read fd s el =
        after_add fd (put fd s el.sockets) el (add_read fd el.kernel)

    -- `EnableReadWrite` and `EnableRead` of the loop.
    unfoldable pub loop_enable : Bool → ℕ → Loop S K → Option (Loop S K)
    loop_enable with_write fd el =
        after_modify el
          (if with_write then enable_read_write fd el.kernel else enable_read fd el.kernel)
