-- ===== src/Connection/Defs.antt =====
-- connection.go: `sendInLoop`, `handleWrite` and `handleClose`. A connection is its output buffer,
-- the flag `connected`, whether the poller reports that the socket can be written, the bytes the
-- kernel has taken so far, and the steps of closing that were made. `none` ends the process, by a
-- panic or log.Fatal.
use goreactor.Common.{
  ℕ, ◌≤◌, Bool, true, false, not, ◌&&◌, List, [], ◌∷◌, ◌++◌, Option, some, none, ◌≡◌,
}
use goreactor.Common.{ltb, leb, ◌==◌, if◌then◌else◌, ◌>>=◌, length, take, drop}
use goreactor.RingBuffer.Defs.{RingBuffer, write, retrieve, reset}
use goreactor.RingBuffer.Access.{peek_all}
use goreactor.RingBuffer.Contents.{contents}

-- `again` is EAGAIN, with which n is -1; `failed` is every other error.
pub data WriteResult : Type 0 where
  wrote : ℕ → WriteResult
  again failed : WriteResult

pub data Closing : Type 0 where
  delete_fd on_close close_fd put_in_buf put_out_buf stop_timer : Closing

pub record Conn : Type 0 where
  pub out_buf : RingBuffer
  pub connected : Bool
  pub writing : Bool
  pub timed : Bool
  pub written : List ℕ
  pub closings : List Closing

-- What the system calls of a handler do: its first and its second call of `unix.Write`; whether
-- epoll_ctl changes and removes the file descriptor, and whether `unix.Close` closes it.
pub record System : Type 0 where
  pub write_fd : List ℕ → WriteResult
  pub write_again : List ℕ → WriteResult
  pub modifies : Bool
  pub deletes : Bool
  pub closes : Bool

-- A connection after the steps of `handleClose`: `PutInPool` resets the output buffer, which belongs to the
-- pool from then on.
abbrev pub closed_down : Conn → Conn
closed_down c = record {
  out_buf = reset c.out_buf;
  connected = false;
  writing = false;
  timed = c.timed;
  written = c.written;
  closings =
      c.closings
      ++ delete_fd
        ∷ on_close
        ∷ close_fd
        ∷ put_in_buf
        ∷ put_out_buf
        ∷ (if c.timed then stop_timer ∷ [] else []);
}

-- `handleClose`; `none` is the log.Fatal of `DeleteFdInLoop` or after `unix.Close`.
unfoldable pub handle_close : System → Conn → Option Conn
handle_close sys c =
    if not c.connected
    then some c
    else if sys.deletes && sys.closes
    then some (closed_down c)
    else none

-- `handleClose`, with `closed` set.
unfoldable pub close_conn : System → Conn → Option (Conn × Bool)
close_conn sys c = handle_close sys c >>= λ c'. some (c', true)

-- `EnableReadWrite` where bytes are left to be written; its error is ignored.
unfoldable pub enable_read_write : System → Conn → Conn
enable_read_write sys c =
    if c.out_buf.is_empty then c else if sys.modifies then record c { writing = true } else c

-- `c.outBuf.Write(rest)`, after which the poller is told.
unfoldable pub keep_rest : System → Conn → List ℕ → Option (Conn × Bool)
keep_rest sys c rest = write c.out_buf rest >>= λ out.
    some (enable_read_write sys (record c { out_buf = out.1 }), false)

-- `sendInLoop` from the system call on.
unfoldable pub send_direct : System → Conn → List ℕ → WriteResult → Option (Conn × Bool)
send_direct sys c bytes failed = close_conn sys c
send_direct sys c bytes again = keep_rest sys c bytes
send_direct sys c bytes (wrote n) =
    let c' = record c { written = c.written ++ take n bytes } in
    if leb n 0
    then keep_rest sys c bytes
    else if ltb n (length bytes)
    then keep_rest sys c' (drop n bytes)
    else some (enable_read_write sys c', false)

-- `sendInLoop`: the connection, and whether it was closed.
unfoldable pub send_in_loop : System → Conn → List ℕ → Option (Conn × Bool)
send_in_loop sys c bytes =
    if not c.out_buf.is_empty
    then (write c.out_buf bytes >>= λ out. some (record c { out_buf = out.1 }, false))
    else send_direct sys c bytes (sys.write_fd bytes)

-- The end of `handleWrite`: `EnableRead` where nothing is left, with log.Fatal on its error.
unfoldable pub enable_read : System → Conn → Option (Conn × Bool)
enable_read sys c =
    if not c.out_buf.is_empty
    then some (c, false)
    else if sys.modifies
    then some (record c { writing = false }, false)
    else none

-- `c.outBuf.Retrieve(n)` after the kernel took `n` of the bytes.
unfoldable pub took : Conn → List ℕ → ℕ → Option Conn
took c bytes n = retrieve c.out_buf n >>= λ out.
    some (record c { out_buf = out; written = c.written ++ take n bytes })

-- `handleWrite` from the second system call on.
unfoldable pub write_end : System → Conn → List ℕ → WriteResult → Option (Conn × Bool)
write_end sys c ed again = some (c, false)
write_end sys c ed failed = close_conn sys c
write_end sys c ed (wrote n) = took c ed n >>= enable_read sys

-- `handleWrite` from the first system call on.
unfoldable pub write_first : System → Conn → List ℕ → List ℕ → WriteResult → Option (Conn × Bool)
write_first sys c ft ed again = some (c, false)
write_first sys c ft ed failed = close_conn sys c
write_first sys c ft ed (wrote n) = do
  c' ← took c ft n
  (if n == length ft && ltb 0 (length ed)
      then write_end sys c' ed (sys.write_again ed)
      else enable_read sys c')

-- `handleWrite`
unfoldable pub handle_write : System → Conn → Option (Conn × Bool)
handle_write sys c = do (ft, ed) ← peek_all c.out_buf; write_first sys c ft ed (sys.write_fd ft)

-- `unix.Write` does not report more bytes than it was given.
abbrev pub taken : WriteResult → ℕ
taken (wrote n) = n
taken again = 0
taken failed = 0

abbrev pub Takes : (List ℕ → WriteResult) → Type 0
Takes write_fd = (bytes : List ℕ) → taken (write_fd bytes) ≤ length bytes

-- What the peer gets: the bytes the kernel took, then those in the output buffer.
abbrev pub stream : Conn → List ℕ
stream c = c.written ++ contents c.out_buf

-- The connection can be closed: epoll_ctl and `unix.Close` do not fail.
abbrev pub Closes : System → Type 0
Closes sys = (sys.deletes ≡ true) × (sys.closes ≡ true)

-- No system call but `unix.Read` and `unix.Write` fails.
abbrev pub Works : System → Type 0
Works sys = (sys.modifies ≡ true) × Closes sys
